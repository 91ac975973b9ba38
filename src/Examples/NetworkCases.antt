-- ===== src/Examples/NetworkCases.antt =====
-- Addresses and the vault.
use gigmcp.Base.{
  [], ◌∷◌, ◌++◌, ℕ, zero, suc, ◌<◌, true, ◌≡◌, ◌↔◌, refl, lit, none, some, ok, arith, insert, drop,
  comparable_nat,
}
use gigmcp.Netguard.{Ip, is_blocked_ip, v4_prefix, to4, byte_at}
use gigmcp.Netguard.Ranges.{
  is_blocked_ip-v4, is_blocked_ip-v6, InAny, address, blocked_v4, BlockedV6,
}
use gigmcp.Netmgr.{Allocator, subnet, allocate}
use gigmcp.Netmgr.Search.{allocate_lem, IsLeastFree}
use gigmcp.Netmgr.Disjoint.{Pool}
use gigmcp.Vault.{Bytes, Aead, encrypt, decrypt}
use gigmcp.Vault.Envelope.{decrypt-encrypt}

-- The cloud metadata address.
is_blocked_ip-v4_example :
    ((is_blocked_ip (some (169 ∷ 254 ∷ 169 ∷ 254 ∷ [])) ≡ true)
      ↔ InAny (address 169 254 169 254) blocked_v4)
    × (is_blocked_ip (some (v4_prefix ++ 169 ∷ 254 ∷ 169 ∷ 254 ∷ []))
        ≡ is_blocked_ip (some (169 ∷ 254 ∷ 169 ∷ 254 ∷ [])))
is_blocked_ip-v4_example =
    is_blocked_ip-v4 169 254 169 254 (omega arith) (omega arith) (omega arith) (omega arith)

abbrev link_local : Ip
link_local = 0xfe ∷ 0x80 ∷ 0 ∷ 0 ∷ 0 ∷ 0 ∷ 0 ∷ 0 ∷ 0 ∷ 0 ∷ 0 ∷ 0 ∷ 0 ∷ 0 ∷ 0 ∷ 1 ∷ []

link_local-to4 : to4 link_local ≡ none
unfolding to4
link_local-to4 = refl

link_local_bytes : (byte_at 0 link_local < 256) × (byte_at 1 link_local < 256)
unfolding byte_at
link_local_bytes = (omega arith, omega arith)

is_blocked_ip-v6_example : (is_blocked_ip (some link_local) ≡ true) ↔ BlockedV6 link_local
is_blocked_ip-v6_example =
    is_blocked_ip-v6 link_local refl link_local-to4 link_local_bytes.0 link_local_bytes.1

abbrev some_used : Allocator
some_used = record { base = 0x0a580000; used = (0, true) ∷ (2, true) ∷ [] }

allocate_lem_example :
    (n : ℕ) × (allocate some_used
      ≡ some (subnet some_used.base n, record some_used { used = insert n true some_used.used }))
    × IsLeastFree some_used.used 0 n
allocate_lem_example = allocate_lem some_used

-- A cipher that keeps the plaintext, for the format alone.
abbrev pad : Bytes → Bytes
pad plain = 0 ∷ 0 ∷ 0 ∷ 0 ∷ 0 ∷ 0 ∷ 0 ∷ 0 ∷ 0 ∷ 0 ∷ 0 ∷ 0 ∷ 0 ∷ 0 ∷ 0 ∷ 0 ∷ plain

abbrev plain_aead : Aead
plain_aead = record {
  seal = λ key nonce plain. pad plain;
  open_ = λ key nonce box. some (drop 16 box);
  open-seal = λ key nonce plain. refl;
  length-seal = λ key nonce plain. omega arith;
}

abbrev repeat : ℕ → ℕ → Bytes
repeat zero b = []
repeat (suc n) b = b ∷ repeat n b

decrypt-encrypt_example :
    (box : Bytes) × (encrypt plain_aead
        (repeat 32 1)
        (some (repeat 32 2))
        (some (repeat 24 3))
        (some (repeat 24 4))
        (lit "key")
      ≡ ok box)
    × (decrypt plain_aead (repeat 32 1) box ≡ ok (lit "key"))
decrypt-encrypt_example =
    decrypt-encrypt plain_aead (repeat 32 1) (repeat 32 2) (repeat 24 3) (repeat 24 4) (lit "key")
      refl refl refl refl

abbrev two_out : Pool
two_out = record {
  allocator = record { base = 0x0a580000; used = (1, true) ∷ (0, true) ∷ [] };
  live = subnet 0x0a580000 1 ∷ subnet 0x0a580000 0 ∷ [];
}

abbrev one_out : Pool
one_out = record {
  allocator = record { base = 0x0a580000; used = (0, true) ∷ [] };
  live = subnet 0x0a580000 0 ∷ [];
}

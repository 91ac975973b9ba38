-- ===== src/Netguard/Ranges.antt =====
-- The address ranges that IsBlockedIP refuses, as prefixes of the address read as a number.
use Prim.Native.Nat.{bit_and}
use gigmcp.Base.{
  List, [], ◌∷◌, ◌++◌, ℕ, zero, suc, ◌+◌, ◌*◌, ◌/◌, ◌^◌, ◌<◌, Bool, true, false, ◌&&◌, ◌≡◌, ◌↔◌,
  ◌⊎◌, inl, inr, refl, length, nat_beq, text_beq, none, some, if◌then◌else◌, arith, Bool-cases, ap,
  ◌%◌, nat_beq_iff, text_beq_iff,
}
use gigmcp.Netguard.{
  Ip, to4, is_blocked_ip, v4_prefix, byte_at, is_loopback, is_private, is_link_local_unicast,
  is_link_local_multicast, is_unspecified, cgnat_contains, ipv6_loopback, ipv6_unspecified,
}

-- Whether a test holds at each of the first numbers, for tests of masked bits.
byte_table : ℕ → (ℕ → Bool) → Bool
byte_table k test = elim k [ zero ↦ true | suc (j → before) ↦ if test j then before else false ]

byte_table_lem :
    (k : ℕ) (test : ℕ → Bool) (b : ℕ) → byte_table k test ≡ true → b < k → test b ≡ true
unfolding byte_table
byte_table_lem zero test b full inside = absurd (omega arith)
byte_table_lem (suc j) test b full inside = ground (arith, byte_table_lem j test b)

abbrev same : Bool → Bool → Bool
same true b = b
same false b = if b then false else true

of_same : (a b : Bool) → same a b ≡ true → a ≡ b
of_same a b h = ground arith

mask_f0_table : byte_table 256 (λ x. same (nat_beq (bit_and x 0xf0) 16) (nat_beq (x / 16) 1)) ≡ true
unfolding byte_table
mask_f0_table = refl

mask_f0 : (x : ℕ) → x < 256 → nat_beq (bit_and x 0xf0) 16 ≡ nat_beq (x / 16) 1
mask_f0 x h = of_same _ _ (byte_table_lem 256 _ x mask_f0_table h)

mask_ff_table : byte_table 256 (λ x. nat_beq (bit_and x 255) x) ≡ true
unfolding byte_table
mask_ff_table = refl

mask_ff : (x : ℕ) → x < 256 → bit_and x 255 ≡ x
mask_ff x h = (nat_beq_iff _ x).0 (byte_table_lem 256 _ x mask_ff_table h)

mask_c0_table : byte_table 256 (λ x. same (nat_beq 64 (bit_and x 192)) (nat_beq (x / 64) 1)) ≡ true
unfolding byte_table
mask_c0_table = refl

mask_c0 : (x : ℕ) → x < 256 → nat_beq 64 (bit_and x 192) ≡ nat_beq (x / 64) 1
mask_c0 x h = of_same _ _ (byte_table_lem 256 _ x mask_c0_table h)

mask_00_table : byte_table 256 (λ x. nat_beq (bit_and x 0) 0) ≡ true
unfolding byte_table
mask_00_table = refl

mask_00 : (x : ℕ) → x < 256 → bit_and x 0 ≡ 0
mask_00 x h = (nat_beq_iff _ 0).0 (byte_table_lem 256 _ x mask_00_table h)

-- A prefix a.b.c.d/len.
pub record Cidr : Type 0 where
  pub net : ℕ
  pub host_size : ℕ

abbrev pub address : ℕ → ℕ → ℕ → ℕ → ℕ
address a b c d = ((a * 256 + b) * 256 + c) * 256 + d

-- Two addresses lie in one block of `host_size` addresses.
abbrev pub InCidr : ℕ → Cidr → Type 0
InCidr n r = n / r.host_size ≡ r.net / r.host_size

abbrev pub blocked_v4 : List Cidr
blocked_v4 =
    record { net = address 127 0 0 0; host_size = 2 ^ 24 }
    ∷ record { net = address 10 0 0 0; host_size = 2 ^ 24 }
    ∷ record { net = address 172 16 0 0; host_size = 2 ^ 20 }
    ∷ record { net = address 192 168 0 0; host_size = 2 ^ 16 }
    ∷ record { net = address 169 254 0 0; host_size = 2 ^ 16 }
    ∷ record { net = address 224 0 0 0; host_size = 2 ^ 8 }
    ∷ record { net = address 0 0 0 0; host_size = 1 }
    ∷ record { net = address 100 64 0 0; host_size = 2 ^ 22 }
    ∷ []

abbrev pub InAny : ℕ → List Cidr → Type 0
InAny n [] = ⊥
InAny n (r ∷ rs) = InCidr n r ⊎ InAny n rs

four_bytes :
    (a b c d : ℕ)
    → a < 256
    → b < 256
    → c < 256
    → d < 256
    → (is_blocked_ip (some (a ∷ b ∷ c ∷ d ∷ [])) ≡ true) ↔ InAny (address a b c d) blocked_v4
unfolding is_blocked_ip is_loopback is_private is_link_local_unicast is_link_local_multicast
    is_unspecified cgnat_contains
four_bytes a b c d ha hb hc hd =
    ground (arith, mask_f0 b hb, mask_ff a ha, mask_c0 b hb, mask_00 c hc, mask_00 d hd)

mapped :
    (a b c d : ℕ)
    → is_blocked_ip (some (v4_prefix ++ a ∷ b ∷ c ∷ d ∷ []))
      ≡ is_blocked_ip (some (a ∷ b ∷ c ∷ d ∷ []))
unfolding is_blocked_ip is_loopback is_private is_link_local_unicast is_link_local_multicast
    is_unspecified cgnat_contains
mapped a b c d = refl

-- An IPv4 address is blocked exactly when it lies in one of the prefixes of `blocked_v4`, and its
-- 16-byte form is judged as its 4-byte form, so that writing an address as ::ffff:a.b.c.d does not
-- get it past the guard.
pub is_blocked_ip-v4 :
    (a b c d : ℕ)
    → a < 256
    → b < 256
    → c < 256
    → d < 256
    → ((is_blocked_ip (some (a ∷ b ∷ c ∷ d ∷ [])) ≡ true) ↔ InAny (address a b c d) blocked_v4)
      × (is_blocked_ip (some (v4_prefix ++ a ∷ b ∷ c ∷ d ∷ []))
          ≡ is_blocked_ip (some (a ∷ b ∷ c ∷ d ∷ [])))
is_blocked_ip-v4 a b c d ha hb hc hd = (four_bytes a b c d ha hb hc hd, mapped a b c d)

mask_fe_table :
    byte_table 256 (λ x. same (nat_beq (bit_and x 0xfe) 0xfc) (nat_beq (x / 2) 126)) ≡ true
unfolding byte_table
mask_fe_table = refl

mask_fe : (x : ℕ) → x < 256 → nat_beq (bit_and x 0xfe) 0xfc ≡ nat_beq (x / 2) 126
mask_fe x h = of_same _ _ (byte_table_lem 256 _ x mask_fe_table h)

mask_c0_high_table :
    byte_table 256 (λ x. same (nat_beq (bit_and x 0xc0) 0x80) (nat_beq (x / 64) 2)) ≡ true
unfolding byte_table
mask_c0_high_table = refl

mask_c0_high : (x : ℕ) → x < 256 → nat_beq (bit_and x 0xc0) 0x80 ≡ nat_beq (x / 64) 2
mask_c0_high x h = of_same _ _ (byte_table_lem 256 _ x mask_c0_high_table h)

mask_0f_table :
    byte_table 256 (λ x. same (nat_beq (bit_and x 0x0f) 0x02) (nat_beq (x % 16) 2)) ≡ true
unfolding byte_table
mask_0f_table = refl

mask_0f : (x : ℕ) → x < 256 → nat_beq (bit_and x 0x0f) 0x02 ≡ nat_beq (x % 16) 2
mask_0f x h = of_same _ _ (byte_table_lem 256 _ x mask_0f_table h)

-- ::1, ::, fc00::/7, fe80::/10 and the multicast addresses of link-local scope.
abbrev pub BlockedV6 : Ip → Type 0
BlockedV6 ip =
    (ip ≡ ipv6_loopback)
    ⊎ (ip ≡ ipv6_unspecified)
    ⊎ (byte_at 0 ip / 2 ≡ 126)
    ⊎ ((byte_at 0 ip ≡ 254) × (byte_at 1 ip / 64 ≡ 2))
    ⊎ ((byte_at 0 ip ≡ 255) × (byte_at 1 ip % 16 ≡ 2))

to4_zero : to4 (v4_prefix ++ 0 ∷ 0 ∷ 0 ∷ 0 ∷ []) ≡ some (0 ∷ 0 ∷ 0 ∷ 0 ∷ [])
unfolding to4
to4_zero = refl

not_zero_of_to4 : (ip : Ip) → to4 ip ≡ none → text_beq ip (v4_prefix ++ 0 ∷ 0 ∷ 0 ∷ 0 ∷ []) ≡ false
not_zero_of_to4 ip h = elim (Bool-cases (text_beq ip (v4_prefix ++ 0 ∷ 0 ∷ 0 ∷ 0 ∷ []))) [
  | inl e ↦ cc (ap to4 ((text_beq_iff ip _).0 e), to4_zero)
  | inr e ↦ e
]

module _ (ip : Ip) (len : length ip ≡ 16) (no4 : to4 ip ≡ none) where
  loopback_v6 : is_loopback ip ≡ text_beq ip ipv6_loopback
  unfolding is_loopback
  loopback_v6 = ground arith

  private_v6 : is_private ip ≡ nat_beq (bit_and (byte_at 0 ip) 0xfe) 0xfc
  unfolding is_private
  private_v6 = ground arith

  link_local_unicast_v6 :
      is_link_local_unicast ip
      ≡ (nat_beq (byte_at 0 ip) 0xfe && nat_beq (bit_and (byte_at 1 ip) 0xc0) 0x80)
  unfolding is_link_local_unicast
  link_local_unicast_v6 = ground arith

  link_local_multicast_v6 :
      is_link_local_multicast ip
      ≡ (nat_beq (byte_at 0 ip) 0xff && nat_beq (bit_and (byte_at 1 ip) 0x0f) 0x02)
  unfolding is_link_local_multicast
  link_local_multicast_v6 = ground arith

  unspecified_v6 : is_unspecified ip ≡ text_beq ip ipv6_unspecified
  unfolding is_unspecified
  unspecified_v6 = ground (arith, not_zero_of_to4 ip no4)

  cgnat_v6 : cgnat_contains ip ≡ false
  unfolding cgnat_contains
  cgnat_v6 = ground arith

-- A 16-byte address that is no IPv4 address is blocked exactly when it is of `BlockedV6`.
pub is_blocked_ip-v6 :
    (ip : Ip)
    → length ip ≡ 16
    → to4 ip ≡ none
    → byte_at 0 ip < 256
    → byte_at 1 ip < 256
    → (is_blocked_ip (some ip) ≡ true) ↔ BlockedV6 ip
unfolding is_blocked_ip
is_blocked_ip-v6 ip len no4 h0 h1 =
    rw
      (
        loopback_v6 ip len no4,
        private_v6 ip len no4,
        link_local_unicast_v6 ip len no4,
        link_local_multicast_v6 ip len no4,
        unspecified_v6 ip len no4,
        cgnat_v6 ip len no4,
        mask_fe (byte_at 0 ip) h0,
        mask_c0_high (byte_at 1 ip) h1,
        mask_0f (byte_at 1 ip) h1,
      )
      (ground (arith, text_beq_iff ip ipv6_loopback, text_beq_iff ip ipv6_unspecified))

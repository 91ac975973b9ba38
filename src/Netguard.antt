-- ===== src/Netguard.antt =====
-- internal/netguard/netguard.go, with the methods of net.IP that it calls. An address is the list
-- of its bytes, 4 or 16 of them; `none` is the nil address of a text that does not parse.
pub mod Ranges
use Prim.Native.Nat.{bit_and}
use gigmcp.Base.{
  List, [], ◌∷◌, ◌++◌, ℕ, zero, suc, if◌then◌else◌, Bool, true, false, ◌&&◌, ◌||◌, length, take,
  drop, nat_beq, text_beq, Option, none, some,
}

abbrev pub Ip : Type 0
Ip = List ℕ

-- ip[n]
unfoldable pub byte_at : ℕ → Ip → ℕ
byte_at n [] = 0
byte_at zero (b ∷ ip) = b
byte_at (suc n) (b ∷ ip) = byte_at n ip

unfoldable pub zeros : ℕ → Ip
zeros zero = []
zeros (suc n) = 0 ∷ zeros n

-- v4InV6Prefix
unfoldable pub v4_prefix : Ip
unfolding zeros
v4_prefix = zeros 10 ++ 0xff ∷ 0xff ∷ []

unfoldable pub to4 : Ip → Option Ip
unfolding v4_prefix text_beq
to4 ip =
    let mapped : Option Ip = elim (nat_beq (length ip) 16 && text_beq (take 12 ip) v4_prefix) [
      | true ↦ some (drop 12 ip)
      | false ↦ none
    ] in
    elim (nat_beq (length ip) 4) [ true ↦ some ip | false ↦ mapped ]

-- net.IPv6loopback and net.IPv6unspecified
unfoldable pub ipv6_loopback : Ip
unfolding zeros
ipv6_loopback = zeros 15 ++ 1 ∷ []

unfoldable pub ipv6_unspecified : Ip
unfolding zeros
ipv6_unspecified = zeros 16

-- IP.Equal, where a 4-byte address equals its 16-byte form
unfoldable pub ip_equal : Ip → Ip → Bool
unfolding v4_prefix text_beq
ip_equal ip x =
    if nat_beq (length ip) (length x)
    then text_beq ip x
    else if nat_beq (length ip) 4 && nat_beq (length x) 16
    then text_beq (take 12 x) v4_prefix && text_beq ip (drop 12 x)
    else if nat_beq (length ip) 16 && nat_beq (length x) 4
    then text_beq (take 12 ip) v4_prefix && text_beq (drop 12 ip) x
    else false

unfoldable pub is_loopback : Ip → Bool
unfolding ip_equal to4 byte_at ipv6_loopback
is_loopback ip = elim (to4 ip) [
  | some ip4 ↦ nat_beq (byte_at 0 ip4) 127
  | none ↦ ip_equal ip ipv6_loopback
]

unfoldable pub is_private : Ip → Bool
unfolding to4 byte_at
is_private ip = elim (to4 ip) [
  | some ip4 ↦
      nat_beq (byte_at 0 ip4) 10
      || (nat_beq (byte_at 0 ip4) 172 && nat_beq (bit_and (byte_at 1 ip4) 0xf0) 16)
      || (nat_beq (byte_at 0 ip4) 192 && nat_beq (byte_at 1 ip4) 168)
  | none ↦ nat_beq (length ip) 16 && nat_beq (bit_and (byte_at 0 ip) 0xfe) 0xfc
]

unfoldable pub is_link_local_unicast : Ip → Bool
unfolding to4 byte_at
is_link_local_unicast ip = elim (to4 ip) [
  | some ip4 ↦ nat_beq (byte_at 0 ip4) 169 && nat_beq (byte_at 1 ip4) 254
  | none ↦
      nat_beq (length ip) 16
      && nat_beq (byte_at 0 ip) 0xfe
      && nat_beq (bit_and (byte_at 1 ip) 0xc0) 0x80
]

unfoldable pub is_link_local_multicast : Ip → Bool
unfolding to4 byte_at
is_link_local_multicast ip = elim (to4 ip) [
  | some ip4 ↦ nat_beq (byte_at 0 ip4) 224 && nat_beq (byte_at 1 ip4) 0 && nat_beq (byte_at 2 ip4) 0
  | none ↦
      nat_beq (length ip) 16
      && nat_beq (byte_at 0 ip) 0xff
      && nat_beq (bit_and (byte_at 1 ip) 0x0f) 0x02
]

unfoldable pub is_unspecified : Ip → Bool
unfolding ip_equal v4_prefix ipv6_unspecified
is_unspecified ip = ip_equal ip (v4_prefix ++ 0 ∷ 0 ∷ 0 ∷ 0 ∷ []) || ip_equal ip ipv6_unspecified

-- IPNet.Contains of cgnatNet, 100.64.0.0 under the mask 255.192.0.0
unfoldable pub cgnat_contains : Ip → Bool
unfolding to4 byte_at
cgnat_contains ip = elim (to4 ip) [
  | some ip4 ↦
      nat_beq (bit_and 100 255) (bit_and (byte_at 0 ip4) 255)
      && nat_beq (bit_and 64 192) (bit_and (byte_at 1 ip4) 192)
      && nat_beq (bit_and 0 0) (bit_and (byte_at 2 ip4) 0)
      && nat_beq (bit_and 0 0) (bit_and (byte_at 3 ip4) 0)
  | none ↦ false
]

pub is_blocked_ip : Option Ip → Bool
is_blocked_ip none = true
is_blocked_ip (some ip) =
    is_loopback ip
    || is_private ip
    || is_link_local_unicast ip
    || is_link_local_multicast ip
    || is_unspecified ip
    || cgnat_contains ip

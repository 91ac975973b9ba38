-- ===== src/Netmgr.antt =====
-- internal/netmgr/netmgr.go: Allocator, which gives each sandbox a /30 of its own. IPv4 addresses
-- are 32-bit numbers, as `offset` computes with them.
pub mod Search
pub mod Disjoint
use gigmcp.Base.{
  List, [], ◌∷◌, ℕ, zero, suc, ◌+◌, ◌*◌, ◌%◌, ◌^◌, Bool, true, false, Option, none, some, lookup,
  insert, delete, comparable_nat, length, if◌then◌else◌,
}

pub record Subnet : Type 0 where
  pub index : ℕ
  pub host_ip : ℕ
  pub sandbox_ip : ℕ

pub record Allocator : Type 0 where
  pub base : ℕ
  pub used : List (ℕ × Bool)

unfoldable pub new_allocator : ℕ → Allocator
new_allocator base = record { base = base; used = [] }

abbrev pub or_false : Option Bool → Bool
or_false none = false
or_false (some b) = b

-- a.used[k]
unfoldable pub is_used : List (ℕ × Bool) → ℕ → Bool
is_used used k = or_false (lookup k used)

-- `for a.used[k] { k++ }`, on fuel
unfoldable pub next_free : ℕ → List (ℕ × Bool) → ℕ → Option ℕ
next_free zero used k = none
next_free (suc fuel) used k = elim (is_used used k) [
  | true ↦ next_free fuel used (k + 1)
  | false ↦ some k
]

-- uint32 arithmetic: the sum wraps.
pub offset : ℕ → ℕ → ℕ
offset base n = (base + n) % 2 ^ 32

unfoldable pub subnet : ℕ → ℕ → Subnet
unfolding offset
subnet base k = record {
  index = k;
  host_ip = offset base (4 * k + 1);
  sandbox_ip = offset base (4 * k + 2);
}

abbrev pub take_subnet : Allocator → Option ℕ → Option (Subnet × Allocator)
take_subnet a none = none
take_subnet a (some k) = some (subnet a.base k, record a { used = insert k true a.used })

-- `none` stands for a search that does not end; `Search` shows that it does.
unfoldable pub allocate : Allocator → Option (Subnet × Allocator)
unfolding subnet
allocate a = take_subnet a (next_free (length a.used + 1) a.used 0)

pub free : Subnet → Allocator → Allocator
free s a = record a { used = delete s.index a.used }

-- ===== src/Netmgr/Disjoint.antt =====
-- Sandboxes that live at the same time have different addresses.
use gigmcp.Base.{List, [], ◌∷◌, ℕ, ◌≡◌, ◌≢◌, true, some, comparable_nat, All, ◌++◌}
use gigmcp.Netmgr.{Allocator, Subnet, is_used, allocate, free, new_allocator, subnet}

-- The subnets that are out, as a list that the allocator does not see: an allocation adds the
-- subnet that is returned, and one that is out is freed.
pub record Pool : Type 0 where
  pub allocator : Allocator
  pub live : List Subnet

pub data Step (p : Pool) : Pool → Type 0 where
  allocates :
      (s : Subnet) (a : Allocator)
      → allocate p.allocator ≡ some (s, a)
      → Step p (record { allocator = a; live = s ∷ p.live })
  frees :
      (before after : List Subnet) (s : Subnet)
      → p.live ≡ before ++ s ∷ after
      → Step p (record { allocator = free s p.allocator; live = before ++ after })

pub data Reach (p : Pool) : Pool → Type 0 where
  start : Reach p p
  next : {q r : Pool} → Reach p q → Step q r → Reach p r

-- No subnet of the list has index k.
abbrev Fresh : ℕ → List Subnet → Type 0
Fresh k = All (λ s. s.index ≢ k)

abbrev Distinct : List Subnet → Type 0
Distinct [] = Unit
Distinct (s ∷ rest) = Fresh s.index rest × Distinct rest

pub record IsTracked (base : ℕ) (p : Pool) : Type 0 where
  pub same_base : p.allocator.base ≡ base
  pub used : All (λ s. is_used p.allocator.used s.index ≡ true) p.live
  pub cut : All (λ s. s ≡ subnet base s.index) p.live
  pub distinct : Distinct p.live

abbrev pub idle : ℕ → Pool
idle base = record { allocator = new_allocator base; live = [] }

-- No address of the one is an address of the other.
abbrev pub Apart : Subnet → Subnet → Type 0
Apart s t =
    (s.host_ip ≢ t.host_ip)
    × (s.host_ip ≢ t.sandbox_ip)
    × (s.sandbox_ip ≢ t.host_ip)
    × (s.sandbox_ip ≢ t.sandbox_ip)

abbrev pub PairwiseApart : List Subnet → Type 0
PairwiseApart [] = Unit
PairwiseApart (s ∷ rest) = All (Apart s) rest × PairwiseApart rest

-- ===== src/Netmgr/Search.antt =====
-- The search for a free index ends, and finds the least one.
use gigmcp.Base.{
  List, [], ◌∷◌, ℕ, zero, suc, ◌+◌, ◌≤◌, ◌<◌, ◌≡◌, Bool, true, false, some, lookup, insert, length,
  if◌then◌else◌, leb, nat_beq, arith, Bool-cases, inl, inr, nat_beq_iff, comparable_nat,
}
use gigmcp.Netmgr.{Allocator, is_used, next_free, allocate, subnet}

-- The entries with a key of at least k.
above : ℕ → List (ℕ × Bool) → ℕ
above k [] = 0
above k ((j, b) ∷ m) = (if leb k j then 1 else 0) + above k m

above-le-length : (k : ℕ) (m : List (ℕ × Bool)) → above k m ≤ length m
unfolding above
above-le-length k [] = omega arith
above-le-length k ((j, b) ∷ m) = ground (arith, above-le-length k m)

above_mono : (k : ℕ) (m : List (ℕ × Bool)) → above (k + 1) m ≤ above k m
unfolding above
above_mono k [] = omega arith
above_mono k ((j, b) ∷ m) = ground (arith, above_mono k m)

above_used : (k : ℕ) (m : List (ℕ × Bool)) → is_used m k ≡ true → above (k + 1) m < above k m
unfolding above is_used lookup
above_used k [] h = cc
above_used k ((j, b) ∷ m) h = ground (arith, above_used k m, above_mono k m)

-- What the search promises: an index that is free, below which from k on none is.
pub record IsLeastFree (used : List (ℕ × Bool)) (k n : ℕ) : Type 0 where
  pub free : is_used used n ≡ false
  pub least : (j : ℕ) → k ≤ j → j < n → is_used used j ≡ true
  pub reached : k ≤ n

least_step :
    (used : List (ℕ × Bool)) (k n : ℕ)
    → is_used used k ≡ true
    → IsLeastFree used (k + 1) n
    → IsLeastFree used k n
least_step used k n h r = record {
  free = r.free;
  least = λ j lo hi. elim (Bool-cases (nat_beq j k)) [
    | inl e ↦ rw ((nat_beq_iff j k).0 e) h
    | inr e ↦ r.least j (ground (arith, nat_beq_iff j k)) hi
  ];
  reached = omega (arith, r.reached);
}

next_free_lem :
    (fuel : ℕ) (used : List (ℕ × Bool)) (k : ℕ)
    → above k used < fuel
    → (n : ℕ) × (next_free fuel used k ≡ some n) × IsLeastFree used k n
unfolding next_free
next_free_lem zero used k h = elim h [ ]
next_free_lem (suc fuel) used k h = elim (Bool-cases (is_used used k)) [
  | inr e ↦ (
    k,
    rw (e, next_free),
    record { free = e; least = λ j lo hi. absurd (omega arith); reached = omega arith },
  )
  | inl e ↦
      let (n, found, least) =
        next_free_lem fuel used (k + 1) (omega (arith, above_used k used e)) in
      (n, rw (e, next_free) found, least_step used k n e least)
]

-- Allocation always returns, with the least index that is not in use.
pub allocate_lem :
    (a : Allocator)
    → (n : ℕ) × (allocate a ≡ some (subnet a.base n, record a { used = insert n true a.used }))
      × IsLeastFree a.used 0 n
unfolding allocate
allocate_lem a =
    let (n, found, least) =
      next_free_lem (length a.used + 1) a.used 0 (omega (arith, above-le-length 0 a.used)) in
    (n, rw found, least)

-- ===== src/Base/Counts.antt =====
-- How often a value stands in a list, and in the lists that a map holds.
use Prim.Native.Nat.{ℕ, suc, ◌+◌}
use mathlib.Core.Path.{◌≡◌, refl, subst}
use mathlib.Core.Bool.{true, false}
use mathlib.Core.Logic.{◌≢◌, inl, inr}
use mathlib.Core.Option.{Option, none, some}
use mathlib.Core.List.{List, [], ◌∷◌, ◌++◌}
use native.Mathlib.Omega.{arith}
use gigmcp.Base.Tests.{
  if◌then◌else◌, Bool-cases, Comparable, ◌==◌, nat_beq, nat_beq_iff, comparable_nat,
}
use gigmcp.Base.Lists.{All, any}
use gigmcp.Base.Maps.{lookup, insert, delete}
use gigmcp.Base.Keys.{IsKeyedBy}

-- Values are numbers.
unfoldable pub occurrences : ℕ → List ℕ → ℕ
occurrences c [] = 0
occurrences c (x ∷ xs) = let rest = occurrences c xs in if x == c then suc rest else rest

-- A value is taken out once.
unfoldable pub take_out : ℕ → List ℕ → List ℕ
take_out c [] = []
take_out c (x ∷ xs) = if x == c then xs else x ∷ take_out c xs

unfoldable pub in_option : ℕ → Option (List ℕ) → ℕ
in_option c none = 0
in_option c (some xs) = occurrences c xs

pub occurrences-append :
    (c : ℕ) (xs ys : List ℕ) → occurrences c (xs ++ ys) ≡ occurrences c xs + occurrences c ys
unfolding occurrences
occurrences-append c [] ys = omega arith
occurrences-append c (x ∷ xs) ys = ground (arith, occurrences-append c xs ys)

pub occurrences-take_out :
    (c d : ℕ) (xs : List ℕ)
    → occurrences c xs
      ≡ occurrences c (take_out d xs)
        + (if d == c then if nat_beq (occurrences c xs) 0 then 0 else 1 else 0)
unfolding occurrences take_out
occurrences-take_out c d [] = ground arith
occurrences-take_out c d (x ∷ xs) =
    ground (arith, occurrences-take_out c d xs, nat_beq_iff x d, nat_beq_iff x c, nat_beq_iff d c)

pub occurrences-any :
    (c : ℕ) (xs : List ℕ) → any (λ x. x == c) xs ≡ true → nat_beq (occurrences c xs) 0 ≡ false
unfolding occurrences any
occurrences-any c [] h = ground arith
occurrences-any c (x ∷ xs) h = ground (arith, occurrences-any c xs)

-- A list in which nothing occurs is empty.
pub empty_of_occurrences : (xs : List ℕ) → ((c : ℕ) → occurrences c xs ≡ 0) → xs ≡ []
unfolding occurrences
empty_of_occurrences [] h = refl
empty_of_occurrences (x ∷ xs) h = ground (arith, h x, nat_beq_iff x x)

module _ {ℓ} {K : Type ℓ} ⦃k : Comparable K⦄ where
  unfoldable pub in_map : ℕ → List (K × List ℕ) → ℕ
  in_map c [] = 0
  in_map c ((j, xs) ∷ m) = occurrences c xs + in_map c m

  abbrev pub Keyed : List (K × List ℕ) → Type ℓ
  Keyed m = IsKeyedBy (λ (e : K × List ℕ). e.0) m

  pub delete-fresh : (j : K) (m : List (K × List ℕ)) → All (λ e. e.0 ≢ j) (delete j m)
  unfolding delete
  delete-fresh j [] = tt
  delete-fresh j ((i, xs) ∷ m) = elim (Bool-cases (i == j)) [
    | inl e ↦ rw e (delete-fresh j m)
    | inr e ↦ rw e ((λ same. ground (arith, k.decides i j)), delete-fresh j m)
  ]

  delete-All :
      (i j : K) (m : List (K × List ℕ)) → All (λ e. e.0 ≢ i) m → All (λ e. e.0 ≢ i) (delete j m)
  unfolding delete
  delete-All i j [] h = tt
  delete-All i j ((n, xs) ∷ m) h = elim (Bool-cases (n == j)) [
    | inl e ↦ rw e (delete-All i j m h.1)
    | inr e ↦ rw e (h.0, delete-All i j m h.1)
  ]

  pub delete-Keyed : (j : K) (m : List (K × List ℕ)) → Keyed m → Keyed (delete j m)
  unfolding delete
  delete-Keyed j [] h = tt
  delete-Keyed j ((i, xs) ∷ m) h = elim (Bool-cases (i == j)) [
    | inl e ↦ rw e (delete-Keyed j m h.1)
    | inr e ↦ rw e (delete-All i j m h.0, delete-Keyed j m h.1)
  ]

  pub insert-Keyed : (j : K) (xs : List ℕ) (m : List (K × List ℕ)) → Keyed m → Keyed (insert j xs m)
  unfolding insert
  insert-Keyed j xs m h = (delete-fresh j m, delete-Keyed j m h)

  lookup-fresh : (j : K) (m : List (K × List ℕ)) → All (λ e. e.0 ≢ j) m → lookup j m ≡ none
  unfolding lookup
  lookup-fresh j [] h = refl
  lookup-fresh j ((i, xs) ∷ m) h = ground (arith, k.decides i j, lookup-fresh j m h.1, h.0)

  in_map-fresh :
      (c : ℕ) (j : K) (m : List (K × List ℕ))
      → All (λ e. e.0 ≢ j) m
      → in_map c (delete j m) ≡ in_map c m
  unfolding in_map delete
  in_map-fresh c j [] h = refl
  in_map-fresh c j ((i, xs) ∷ m) h = ground (arith, k.decides i j, in_map-fresh c j m h.1, h.0)

  -- What a key holds and what is left without the key are what the map holds.
  pub in_map-delete :
      (c : ℕ) (j : K) (m : List (K × List ℕ))
      → Keyed m
      → in_map c m ≡ in_option c (lookup j m) + in_map c (delete j m)
  unfolding in_map lookup delete in_option
  in_map-delete c j [] h = refl
  in_map-delete c j ((i, xs) ∷ m) h = elim (Bool-cases (i == j)) [
    | inl e ↦
        ground (
          arith,
          e,
          in_map-fresh c j m (subst (λ n. All (λ y. y.0 ≢ n) m) ((k.decides i j).0 e) h.0),
        )
    | inr e ↦ ground (arith, e, in_map-delete c j m h.1)
  ]

  pub in_map-insert :
      (c : ℕ) (j : K) (xs : List ℕ) (m : List (K × List ℕ))
      → Keyed m
      → in_map c (insert j xs m) + in_option c (lookup j m) ≡ occurrences c xs + in_map c m
  unfolding insert in_map
  in_map-insert c j xs m h = ground (arith, in_map-delete c j m h)

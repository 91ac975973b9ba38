-- ===== src/Base/Unique.antt =====
-- Rows under a unique key: the row that a lookup finds is found again by its key.
use mathlib.Core.Path.{◌≡◌, sym}
use mathlib.Core.Bool.{Bool, true, false}
use mathlib.Core.Logic.{◌≢◌, inl, inr}
use mathlib.Core.Option.{some}
use mathlib.Core.List.{List, [], ◌∷◌, ◌++◌}
use native.Mathlib.Omega.{arith}
use gigmcp.Base.Tests.{Bool-cases, Comparable, ◌==◌}
use gigmcp.Base.Lists.{All, any}
use gigmcp.Base.Rows.{first_where, upsert}
use gigmcp.Base.Keys.{IsKeyedBy, All-first_where}

module _ {ℓ} {A : Type ℓ} where
  -- A row that is appended is found if no earlier one is.
  pub first_where-append_new :
      (p : A → Bool) (xs : List A) (row : A)
      → any p xs ≡ false
      → p row ≡ true
      → first_where p (xs ++ row ∷ []) ≡ some row
  unfolding first_where any
  first_where-append_new p [] row h k = ground arith
  first_where-append_new p (x ∷ xs) row h k = ground (arith, first_where-append_new p xs row)

  pub All-upsert {κ} :
      (P : A → Type κ) (p : A → Bool) (f : A → A) (row : A) (xs : List A)
      → ((x : A) → P x → P (f x))
      → P row
      → All P xs
      → All P (upsert p f row xs)
  unfolding upsert
  All-upsert P p f row [] keep new h = (new, tt)
  All-upsert P p f row (x ∷ xs) keep new h = elim (Bool-cases (p x)) [
    | inl e ↦ rw e (keep x h.0, h.1)
    | inr e ↦ rw e (h.0, All-upsert P p f row xs keep new h.1)
  ]

module _ {ℓ κ} {A : Type ℓ} {K : Type κ} ⦃c : Comparable K⦄ (key : A → K) where
  pub first_where-key :
      (p : A → Bool) (xs : List A) (x : A)
      → IsKeyedBy key xs
      → first_where p xs ≡ some x
      → first_where (λ y. key y == key x) xs ≡ some x
  unfolding first_where
  first_where-key p [] x keyed e = cc
  first_where-key p (y ∷ xs) x keyed e = elim (Bool-cases (p y)) [
    | inl hit ↦
        let same : y ≡ x = ground (arith, hit, e) in
        rw (← same) (ground (arith, c.decides (key y) (key y)))
    | inr miss ↦
        let found : first_where p xs ≡ some x = ground (arith, miss, e) in
        let apart : key x ≢ key y =
          All-first_where key (λ (z : A). key z ≢ key y) p xs x keyed.0 found in
        ground (
          arith,
          first_where-key p xs x keyed.1 found,
          (c.decides (key y) (key x)).0,
          λ (same : key y ≡ key x). apart (sym same),
        )
  ]

module _ {ℓ κ} {A : Type ℓ} {K : Type κ} (key : A → K) where
  pub upsert-IsKeyedBy :
      (p : A → Bool) (f : A → A) (row : A) (xs : List A)
      → ((x : A) → key (f x) ≡ key x)
      → All (λ y. key y ≢ key row) xs
      → IsKeyedBy key xs
      → IsKeyedBy key (upsert p f row xs)
  unfolding upsert
  upsert-IsKeyedBy p f row [] same fresh keyed = (tt, tt)
  upsert-IsKeyedBy p f row (x ∷ xs) same fresh keyed = elim (Bool-cases (p x)) [
    | inl e ↦ rw e (rw (same x) keyed.0, keyed.1)
    | inr e ↦ rw e (
      All-upsert (λ y. key y ≢ key x) p f row xs (λ y ne. rw (same y) ne)
          (λ back. fresh.0 (sym back)) keyed.0,
      upsert-IsKeyedBy p f row xs same fresh.1 keyed.1,
    )
  ]

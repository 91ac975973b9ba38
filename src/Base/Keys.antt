-- ===== src/Base/Keys.antt =====
-- A table under a UNIQUE constraint: no two rows have the same key.
use mathlib.Core.Path.{◌≡◌, refl, sym, subst}
use mathlib.Core.Bool.{Bool, true, false, ◌&&◌}
use mathlib.Core.Logic.{◌≢◌, inl, inr}
use mathlib.Core.Option.{Option, none, some}
use mathlib.Core.List.{List, [], ◌∷◌, ◌++◌}
use native.Mathlib.Omega.{arith}
use gigmcp.Base.Tests.{if◌then◌else◌, Bool-cases, Comparable, ◌==◌}
use gigmcp.Base.Lists.{All, any, All-append}
use gigmcp.Base.Rows.{first_where, delete_where, update_where}

module _ {ℓ κ} {A : Type ℓ} {K : Type κ} (key : A → K) where
  abbrev pub IsKeyedBy : List A → Type (ℓ ⊔ κ)
  IsKeyedBy [] = Unit
  IsKeyedBy (x ∷ xs) = All (λ y. key y ≢ key x) xs × IsKeyedBy xs

module _ {ℓ κ μ} {A : Type ℓ} {K : Type κ} (key : A → K) (P : A → Type μ) where
  pub All-delete_where : (q : A → Bool) (xs : List A) → All P xs → All P (delete_where q xs)
  unfolding delete_where
  All-delete_where q [] h = tt
  All-delete_where q (x ∷ xs) h = elim (Bool-cases (q x)) [
    | inl e ↦ rw e (All-delete_where q xs h.1)
    | inr e ↦ rw e (h.0, All-delete_where q xs h.1)
  ]

  pub All-first_where :
      (q : A → Bool) (xs : List A) (x : A) → All P xs → first_where q xs ≡ some x → P x
  unfolding first_where
  All-first_where q [] x h e = absurd (cc)
  All-first_where q (y ∷ xs) x h e = elim (Bool-cases (q y)) [
    | inl hit ↦ subst P (ground (arith, hit)) h.0
    | inr miss ↦ All-first_where q xs x h.1 (ground (arith, miss))
  ]

  pub All-update_where :
      (q : A → Bool) (f : A → A) (xs : List A)
      → ((x : A) → P x → P (f x))
      → All P xs
      → All P (update_where q f xs)
  unfolding update_where
  All-update_where q f [] keep h = tt
  All-update_where q f (x ∷ xs) keep h = elim (Bool-cases (q x)) [
    | inl e ↦ rw e (keep x h.0, All-update_where q f xs keep h.1)
    | inr e ↦ rw e (h.0, All-update_where q f xs keep h.1)
  ]

module _ {ℓ κ} {A : Type ℓ} {K : Type κ} (key : A → K) where
  pub delete_where-IsKeyedBy :
      (q : A → Bool) (xs : List A) → IsKeyedBy key xs → IsKeyedBy key (delete_where q xs)
  unfolding delete_where
  delete_where-IsKeyedBy q [] h = tt
  delete_where-IsKeyedBy q (x ∷ xs) h = elim (Bool-cases (q x)) [
    | inl e ↦ rw e (delete_where-IsKeyedBy q xs h.1)
    | inr e ↦
        rw e (All-delete_where key (λ y. key y ≢ key x) q xs h.0, delete_where-IsKeyedBy q xs h.1)
  ]

  pub update_where-IsKeyedBy :
      (q : A → Bool) (f : A → A) (xs : List A)
      → ((x : A) → key (f x) ≡ key x)
      → IsKeyedBy key xs
      → IsKeyedBy key (update_where q f xs)
  unfolding update_where
  update_where-IsKeyedBy q f [] same h = tt
  update_where-IsKeyedBy q f (x ∷ xs) same h = (
    rw (head_key q f x same)
        (All-update_where key (λ y. key y ≢ key x) q f xs (λ y ne. rw (same y) ne) h.0),
    update_where-IsKeyedBy q f xs same h.1,
  )
    where
      head_key :
          (q : A → Bool) (f : A → A) (x : A)
          → ((y : A) → key (f y) ≡ key y)
          → key (if q x then f x else x) ≡ key x
      head_key q f x same = elim (Bool-cases (q x)) [ inl e ↦ rw e (same x) | inr e ↦ rw e refl ]

  pub IsKeyedBy-append :
      (xs : List A) (row : A)
      → IsKeyedBy key xs
      → All (λ y. key y ≢ key row) xs
      → IsKeyedBy key (xs ++ row ∷ [])
  IsKeyedBy-append [] row h fresh = (tt, tt)
  IsKeyedBy-append (x ∷ xs) row h fresh = (
    All-append (λ y. key y ≢ key x) xs (row ∷ []) h.0 ((λ e. fresh.0 (sym e)), tt),
    IsKeyedBy-append xs row h.1 fresh.1,
  )

abbrev pub keep_if {ℓ} : {A : Type ℓ} → (A → Bool) → Option A → Option A
keep_if r none = none
keep_if r (some x) = if r x then some x else none

module _ {ℓ κ} {A : Type ℓ} {K : Type κ} ⦃c : Comparable K⦄ (key : A → K) where
  -- What the constraint's own check finds.
  pub fresh_of_any :
      (k : K) (xs : List A) → any (λ y. key y == k) xs ≡ false → All (λ y. key y ≢ k) xs
  unfolding any
  fresh_of_any k [] h = tt
  fresh_of_any k (x ∷ xs) h =
      ((λ e. ground (arith, c.decides (key x) k)), fresh_of_any k xs (ground arith))

  first_where-fresh :
      (k : K) (r : A → Bool) (xs : List A)
      → All (λ y. key y ≢ k) xs
      → first_where (λ y. key y == k && r y) xs ≡ none
  unfolding first_where
  first_where-fresh k r [] h = refl
  first_where-fresh k r (x ∷ xs) h =
      ground (arith, c.decides (key x) k, first_where-fresh k r xs h.1, h.0)

  -- Under the constraint a search by the key and one more test tests the one row of that key.
  pub first_where-and :
      (k : K) (r : A → Bool) (xs : List A)
      → IsKeyedBy key xs
      → first_where (λ y. key y == k && r y) xs ≡ keep_if r (first_where (λ y. key y == k) xs)
  unfolding first_where
  first_where-and k r [] h = refl
  first_where-and k r (x ∷ xs) h = elim (Bool-cases (key x == k)) [
    | inl e ↦ ground (
      arith,
      e,
      first_where-fresh k r xs
          (subst (λ j. All (λ y. key y ≢ j) xs) ((c.decides (key x) k).0 e) h.0),
    )
    | inr e ↦ ground (arith, e, first_where-and k r xs h.1)
  ]

module _ {ℓ κ} {A : Type ℓ} {K : Type κ} ⦃c : Comparable K⦄ (key : A → K) where
  none-deleted_fresh :
      (k : K) (q : A → Bool) (xs : List A)
      → All (λ y. key y ≢ k) xs
      → first_where (λ y. key y == k) (delete_where q xs) ≡ none
  unfolding first_where delete_where
  none-deleted_fresh k q [] h = refl
  none-deleted_fresh k q (x ∷ xs) h =
      ground (arith, c.decides (key x) k, none-deleted_fresh k q xs h.1, h.0)

  -- Under the constraint, deleting the row of a key leaves none of that key.
  pub first_where-delete_only :
      (k : K) (q : A → Bool) (xs : List A) (s : A)
      → IsKeyedBy key xs
      → first_where (λ y. key y == k) xs ≡ some s
      → q s ≡ true
      → first_where (λ y. key y == k) (delete_where q xs) ≡ none
  unfolding first_where delete_where
  first_where-delete_only k q [] s h e d = cc
  first_where-delete_only k q (x ∷ xs) s h e d = elim (Bool-cases (key x == k)) [
    | inl same ↦ ground (
      arith,
      same,
      e,
      d,
      none-deleted_fresh k q xs
          (subst (λ j. All (λ y. key y ≢ j) xs) ((c.decides (key x) k).0 same) h.0),
    )
    | inr other ↦ ground (arith, other, e, first_where-delete_only k q xs s h.1)
  ]

module _ {ℓ} {A : Type ℓ} where
  abbrev pub map_row : (A → A) → Option A → Option A
  map_row f none = none
  map_row f (some x) = some (f x)

  -- A search by columns that an update leaves alone finds the same row, updated if it was meant.
  pub first_where-map :
      (p q : A → Bool) (f : A → A) (xs : List A)
      → ((x : A) → p (f x) ≡ p x)
      → first_where p (update_where q f xs)
        ≡ map_row (λ x. if q x then f x else x) (first_where p xs)
  unfolding first_where update_where
  first_where-map p q f [] same = refl
  first_where-map p q f (x ∷ xs) same = ground (arith, same x, first_where-map p q f xs same)

-- ===== src/Base/Rows.antt =====
-- A table as the list of its rows, and the statements that the store runs on it.
use mathlib.Core.Path.{◌≡◌, refl}
use mathlib.Core.Bool.{Bool, true, false}
use mathlib.Core.Option.{Option, none, some}
use mathlib.Core.List.{List, [], ◌∷◌, ◌++◌}
use native.Mathlib.Omega.{arith}
use gigmcp.Base.Tests.{if◌then◌else◌}
use gigmcp.Base.Lists.{where_, any}

module _ {ℓ} {A : Type ℓ} where
  -- QueryRow: the first row selected
  unfoldable pub first_where : (A → Bool) → List A → Option A
  first_where p [] = none
  first_where p (x ∷ xs) = if p x then some x else first_where p xs

  -- DELETE FROM … WHERE p
  unfoldable pub delete_where : (A → Bool) → List A → List A
  delete_where p [] = []
  delete_where p (x ∷ xs) = let rest = delete_where p xs in if p x then rest else x ∷ rest

  -- UPDATE … SET f WHERE p
  unfoldable pub update_where : (A → Bool) → (A → A) → List A → List A
  update_where p f [] = []
  update_where p f (x ∷ xs) = (if p x then f x else x) ∷ update_where p f xs

  -- INSERT … ON CONFLICT(key) DO UPDATE SET f; `p` tells the row in conflict, and AUTOINCREMENT
  -- keys and the order of rows put a new row at the end.
  unfoldable pub upsert : (A → Bool) → (A → A) → A → List A → List A
  upsert p f row [] = row ∷ []
  upsert p f row (x ∷ xs) = if p x then f x ∷ xs else x ∷ upsert p f row xs

  -- INSERT OR IGNORE
  unfoldable pub insert_or_ignore : (A → Bool) → A → List A → List A
  unfolding any
  insert_or_ignore p row xs = if any p xs then xs else xs ++ row ∷ []

  pub first_where_holds :
      (p : A → Bool) (xs : List A) {x : A} → first_where p xs ≡ some x → p x ≡ true
  unfolding first_where
  first_where_holds p [] h = cc
  first_where_holds p (y ∷ xs) {x} h = ground (arith, first_where_holds p xs {x = x})

  -- Rows that a test keeps apart from the deleted ones are selected as before.
  pub where_-delete_where :
      (p q : A → Bool) (xs : List A)
      → ((x : A) → p x ≡ true → q x ≡ false)
      → where_ p (delete_where q xs) ≡ where_ p xs
  unfolding where_ delete_where
  where_-delete_where p q [] h = refl
  where_-delete_where p q (x ∷ xs) h = ground (arith, h x, where_-delete_where p q xs h)

  pub where_-deleted :
      (p q : A → Bool) (xs : List A)
      → ((x : A) → p x ≡ true → q x ≡ true)
      → where_ p (delete_where q xs) ≡ []
  unfolding where_ delete_where
  where_-deleted p q [] h = refl
  where_-deleted p q (x ∷ xs) h = ground (arith, h x, where_-deleted p q xs h)

  pub first_where-delete_where :
      (p q : A → Bool) (xs : List A)
      → ((x : A) → p x ≡ true → q x ≡ false)
      → first_where p (delete_where q xs) ≡ first_where p xs
  unfolding first_where delete_where
  first_where-delete_where p q [] h = refl
  first_where-delete_where p q (x ∷ xs) h = ground (arith, h x, first_where-delete_where p q xs h)

  pub first_where-deleted :
      (p q : A → Bool) (xs : List A)
      → ((x : A) → p x ≡ true → q x ≡ true)
      → first_where p (delete_where q xs) ≡ none
  unfolding first_where delete_where
  first_where-deleted p q [] h = refl
  first_where-deleted p q (x ∷ xs) h = ground (arith, h x, first_where-deleted p q xs h)

  pub any-delete_where :
      (p q : A → Bool) (xs : List A)
      → ((x : A) → p x ≡ true → q x ≡ false)
      → any p (delete_where q xs) ≡ any p xs
  unfolding any delete_where
  any-delete_where p q [] h = refl
  any-delete_where p q (x ∷ xs) h = ground (arith, h x, any-delete_where p q xs h)

  pub any-deleted :
      (p q : A → Bool) (xs : List A)
      → ((x : A) → p x ≡ true → q x ≡ true)
      → any p (delete_where q xs) ≡ false
  unfolding any delete_where
  any-deleted p q [] h = refl
  any-deleted p q (x ∷ xs) h = ground (arith, h x, any-deleted p q xs h)

  pub any-insert_or_ignore :
      (p q : A → Bool) (row : A) (xs : List A)
      → any p (insert_or_ignore q row xs)
        ≡ (if any q xs then any p xs else if p row then true else any p xs)
  unfolding insert_or_ignore
  any-insert_or_ignore p q row xs = ground (arith, any-end p row xs)
    where
      any-end :
          (p : A → Bool) (row : A) (xs : List A)
          → any p (xs ++ row ∷ []) ≡ (if p row then true else any p xs)
      any-end p row [] = ground arith
      any-end p row (x ∷ xs) = ground (arith, any-end p row xs)

  -- Lookups by a key that an update leaves alone see the updated row, others what they saw.
  pub first_where-update_where :
      (p q : A → Bool) (f : A → A) (xs : List A)
      → ((x : A) → p (f x) ≡ p x)
      → ((x : A) → p x ≡ true → q x ≡ false)
      → first_where p (update_where q f xs) ≡ first_where p xs
  unfolding first_where update_where
  first_where-update_where p q f [] k h = refl
  first_where-update_where p q f (x ∷ xs) k h =
      ground (arith, k x, h x, first_where-update_where p q f xs k h)

  pub first_where-updated :
      (p : A → Bool) (f : A → A) (xs : List A) (x : A)
      → ((y : A) → p (f y) ≡ p y)
      → first_where p xs ≡ some x
      → first_where p (update_where p f xs) ≡ some (f x)
  unfolding first_where update_where
  first_where-updated p f [] x k h = cc
  first_where-updated p f (y ∷ xs) x k h = ground (arith, k y, first_where-updated p f xs x k)

  -- After an upsert the row of the key is the inserted one, or the update of the old one.
  pub first_where-upsert_self :
      (p : A → Bool) (f : A → A) (row : A) (xs : List A)
      → p row ≡ true
      → ((y : A) → p y ≡ true → p (f y) ≡ true)
      → first_where p (upsert p f row xs)
        ≡ some (elim (first_where p xs) [ none ↦ row | some old ↦ f old ])
  unfolding first_where upsert
  first_where-upsert_self p f row [] h k = ground arith
  first_where-upsert_self p f row (y ∷ xs) h k =
      ground (arith, k y, first_where-upsert_self p f row xs h k)

  pub first_where-upsert_other :
      (p q : A → Bool) (f : A → A) (row : A) (xs : List A)
      → q row ≡ false
      → ((y : A) → p y ≡ true → q (f y) ≡ false)
      → ((y : A) → p y ≡ true → q y ≡ false)
      → first_where q (upsert p f row xs) ≡ first_where q xs
  unfolding first_where upsert
  first_where-upsert_other p q f row [] h k d = ground arith
  first_where-upsert_other p q f row (y ∷ xs) h k d =
      ground (arith, k y, d y, first_where-upsert_other p q f row xs h k d)

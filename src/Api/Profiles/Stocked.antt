-- ===== src/Api/Profiles/Stocked.antt =====
-- The operations of the store keep every bundle within the installs of its owner.
use gigmcp.Base.{
  Text, List, [], ◌∷◌, ◌++◌, ℕ, ◌+◌, ◌≤◌, ℤ, pos, Bool, true, ◌==◌, comparable_text, comparable_int,
  any, first_where, delete_where, update_where, Option, none, some, ok, ◌≡◌, ◌⊎◌, inl, inr, refl,
  ap, ◌∙◌, arith, int_beq_iff, Bool-cases,
}
use gigmcp.Store.Types.{Db, Profile}
use gigmcp.Store.Installs.{is_user_installed, is_install}
use gigmcp.Store.Profiles.{
  found, new_profile, create_profile, get_profile_by_id, update_profile_name, set_profile_token,
}
use gigmcp.Store.Profiles.Bundles.{bundled}

-- The owner of a profile has installed each server in its bundle; and only profiles that were
-- created have one.
pub record IsStocked (db : Db) : Type 0 where
  pub known :
      (id : ℤ) (name : Text)
      → bundled id name db ≡ true
      → (n : ℕ) × (id ≡ pos n) × (n ≤ db.profile_seq)
  pub installed :
      (id : ℤ) (name : Text) (p : Profile)
      → bundled id name db ≡ true
      → get_profile_by_id id db ≡ ok p
      → is_user_installed p.user_id name db ≡ true

pub any_of_kept {ℓ} :
    {A : Type ℓ} (p q : A → Bool) (xs : List A) → any p (delete_where q xs) ≡ true → any p xs ≡ true
unfolding any delete_where
any_of_kept p q [] h = h
any_of_kept p q (x ∷ xs) h = ground (arith, any_of_kept p q xs)

pub found_of : (o : Option Profile) (p : Profile) → found o ≡ ok p → o ≡ some p
found_of none p h = ground arith
found_of (some q) p h = ground arith

first_where-append :
    (p : Profile → Bool) (xs : List Profile) (row y : Profile)
    → first_where p (xs ++ row ∷ []) ≡ some y
    → (first_where p xs ≡ some y) ⊎ (p row ≡ true)
unfolding first_where
first_where-append p [] row y h = elim (Bool-cases (p row)) [
  | inl e ↦ inr e
  | inr e ↦ ground (arith, e)
]
first_where-append p (x ∷ xs) row y h = elim (Bool-cases (p x)) [
  | inl e ↦ inl (ground (arith, e))
  | inr e ↦ elim (first_where-append p xs row y (ground (arith, e))) [
    | inl k ↦ inl (ground (arith, e, k))
    | inr k ↦ inr k
  ]
]

-- An update that keeps ids and owners.
owner_before :
    (p q : Profile → Bool) (f : Profile → Profile) (xs : List Profile) (y : Profile)
    → ((x : Profile) → p (f x) ≡ p x)
    → ((x : Profile) → (f x).user_id ≡ x.user_id)
    → first_where p (update_where q f xs) ≡ some y
    → (x : Profile) × (first_where p xs ≡ some x) × (y.user_id ≡ x.user_id)
unfolding first_where update_where
owner_before p q f [] y same owner h = ground arith
owner_before p q f (x ∷ xs) y same owner h = elim (Bool-cases (p x)) [
  | inl e ↦ (
    x,
    ground (arith, e),
    elim (Bool-cases (q x)) [
      | inl k ↦ ground (arith, e, k, same x, owner x)
      | inr k ↦ ground (arith, e, k)
    ],
  )
  | inr e ↦
      let (z, at, who) = owner_before p q f xs y same owner (ground (arith, e, same x)) in
      (z, ground (arith, e, at), who)
]

module _ (db : Db) (h : IsStocked db) where
  -- Profiles alone change, and none of them its owner.
  kept_owner :
      (q : Profile → Bool) (f : Profile → Profile)
      → ((x : Profile) → (f x).id ≡ x.id)
      → ((x : Profile) → (f x).user_id ≡ x.user_id)
      → IsStocked (record db { profiles = update_where q f db.profiles })
  unfolding get_profile_by_id is_user_installed
  kept_owner q f same owner = record {
    known = λ id name b. h.known id name b;
    installed = λ id name p b at.
        let (x, before, who) =
          owner_before (λ (r : Profile). r.id == id) q f db.profiles p
            (λ x. ap (λ (i : ℤ). i == id) (same x)) owner
            (found_of (first_where (λ (r : Profile). r.id == id) (update_where q f db.profiles)) p
              at) in
        ap (λ (u : ℤ). any (is_install u name) db.user_installs) who
        ∙ h.installed id name x b (ap found before);
  }

  pub update_profile_name-IsStocked :
      (id : ℤ) (name : Text) → IsStocked (update_profile_name id name db)
  unfolding update_profile_name
  update_profile_name-IsStocked id name = kept_owner _ _ (λ x. refl) (λ x. refl)

  pub set_profile_token-IsStocked :
      (id : ℤ) (hash : Text) → IsStocked (set_profile_token id hash db)
  unfolding set_profile_token
  set_profile_token-IsStocked id hash = kept_owner _ _ (λ x. refl) (λ x. refl)

  appended :
      (row : Profile)
      → row.id ≡ pos (db.profile_seq + 1)
      → IsStocked
          (record db { profiles = db.profiles ++ row ∷ []; profile_seq = db.profile_seq + 1 })
  unfolding get_profile_by_id is_user_installed
  appended row fresh = record {
    known = λ id name b. let (n, e, le) = h.known id name b in (n, e, omega arith);
    installed = λ id name p b at.
        elim (first_where-append (λ (r : Profile). r.id == id) db.profiles row p
          (found_of (first_where (λ (r : Profile). r.id == id) (db.profiles ++ row ∷ [])) p at)) [
            | inl before ↦ h.installed id name p b (ap found before)
            | inr same ↦ absurd (never id name b same)
          ];
  }
    where
      never : (id : ℤ) (name : Text) → bundled id name db ≡ true → (row.id == id) ≡ true → ⊥
      never id name b same =
          let (n, e, le) = h.known id name b in
          let eq : row.id ≡ id = (int_beq_iff row.id id).0 same in ground arith

  pub create_profile-IsStocked :
      (now : ℕ) (slug name : Text) (user : ℤ) (hash : Text)
      → IsStocked (create_profile now slug name user hash db).1
  unfolding create_profile
  create_profile-IsStocked now slug name user hash =
      elim (Bool-cases (any (λ (p : Profile). p.slug == slug) db.profiles)) [
        | inl e ↦ rw e h
        | inr e ↦ rw e (appended (new_profile now slug name user hash db) refl)
      ]

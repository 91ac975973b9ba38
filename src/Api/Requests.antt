-- ===== src/Api/Requests.antt =====
-- What the handlers of a profile keep of the tables, once it is loaded.
pub mod Sound
pub mod Sweep
pub mod Run
use gigmcp.Base.{
  Text, List, [], ◌∷◌, ℕ, ◌≤◌, ℤ, pos, Bool, true, false, ◌&&◌, ◌==◌, comparable_text,
  comparable_int, any, map, where_, first_where, attempt, if◌then◌else◌, Option, none, some, Result,
  Result-cases, ok, err, unless_fault, ◌≡◌, ◌⊎◌, inl, inr, refl, ap, ◌∙◌, sym, subst, arith,
  text_beq_iff, int_beq_iff, Bool-cases, Option-cases, All-first_where, first_where_holds, lit,
}
use gigmcp.Store.Types.{Db, Profile, Install, Error, profile_not_found, slug_taken}
use gigmcp.Store.Audit.{append_audit}
use gigmcp.Store.Installs.{
  order, insert_sorted, is_install, install_for_user, uninstall_for_user, is_user_installed,
  list_user_installs, cascade_remove_server,
}
use gigmcp.Store.Profiles.{
  IsKeyed, get_profile_by_id, create_profile, update_profile_name, set_profile_token,
  delete_profile, set_profile_servers, bundle_replaced, remove_server_from_profiles,
}
use gigmcp.Store.Profiles.Tokens.{profiles-IsKeyed}
use gigmcp.Store.Profiles.Bundles.{bundled, named}
use gigmcp.Auth.Session.{Context}
use gigmcp.Api.Names.{trim_space, is_display_name}
use gigmcp.Api.Types.{Control, Env, Failure, audit, with_db, invalidate}
use gigmcp.Api.Profiles.Stocked.{
  IsStocked, found_of, update_profile_name-IsStocked, set_profile_token-IsStocked,
  create_profile-IsStocked,
}
use gigmcp.Api.Profiles.Shelved.{
  remove_server-IsStocked, delete_profile-IsStocked, bundle_replaced-IsStocked,
  install_for_user-IsStocked,
}
use gigmcp.Api.Profiles.{
  all_installed, owner_id, created_reply, new_profile_of, handle_create_profile, on_loaded,
  load_owned_profile, write_profile, patched, deleted, bundle_put, bundle_stored, token_rotated,
  join_commas,
}

any-insert_sorted :
    (n t : Text) (l : List Text) → any (λ i. i == n) (insert_sorted t l) ≡ any (λ i. i == n) (t ∷ l)
unfolding any insert_sorted
any-insert_sorted n t [] = refl
any-insert_sorted n t (s ∷ l) = ground (arith, any-insert_sorted n t l)

any-order : (n : Text) (l : List Text) → any (λ i. i == n) (order l) ≡ any (λ i. i == n) l
unfolding any order
any-order n [] = refl
any-order n (t ∷ l) = any-insert_sorted n t (order l) ∙ ground (arith, any-order n l)

any_rows :
    (user : ℤ) (n : Text) (rows : List Install)
    → any (λ i. i == n) (map (λ row. row.server) (where_ (λ row. row.user_id == user) rows))
      ≡ any (is_install user n) rows
unfolding any where_
any_rows user n [] = refl
any_rows user n (row ∷ rows) = ground (arith, any_rows user n rows)

listed :
    (user : ℤ) (n : Text) (db : Db)
    → any (λ i. i == n) (list_user_installs user db) ≡ is_user_installed user n db
unfolding list_user_installs is_user_installed
listed user n db = any-order n _ ∙ any_rows user n db.user_installs

all_installed-named :
    (installs names : List Text) (n : Text)
    → all_installed installs names ≡ true
    → named n names ≡ true
    → any (λ i. i == n) installs ≡ true
unfolding all_installed any
all_installed-named installs [] n h k = ground arith
all_installed-named installs (m ∷ names) n h k = elim (Bool-cases (m == n)) [
  | inl e ↦
      subst (λ (t : Text). any (λ i. i == t) installs ≡ true) ((text_beq_iff m n).0 e)
        (ground arith)
  | inr e ↦ all_installed-named installs names n (ground arith) (ground (arith, e))
]

-- The keys of the profiles, and their bundles within the installs of their owners.
pub record IsSound (db : Db) : Type 0 where
  pub keyed : IsKeyed db
  pub stocked : IsStocked db

module _ (env : Env) (ctx : Option Context) where
  pub audit-IsSound :
      (decision detail : Text) (profile : Option ℤ) (db : Db)
      → IsSound db
      → IsSound (audit env ctx decision detail profile db)
  unfolding audit append_audit get_profile_by_id is_user_installed
  audit-IsSound decision detail profile db h = elim (Option-cases env.audit_fault) [
    | inr (e, bad) ↦ rw bad h
    | inl fine ↦ rw fine (record {
      keyed = record { ids = h.keyed.ids; slugs = h.keyed.slugs; below = h.keyed.below };
      stocked = record { known = h.stocked.known; installed = h.stocked.installed };
    })
  ]

  write_profile-db :
      (status : ℕ) (p : Profile) (token : Text) (s : Control)
      → (write_profile env ctx status p token s).1 ≡ s
  unfolding write_profile
  write_profile-db status p token s = elim (Option-cases env.read_fault) [
    | inr (e, bad) ↦ rw bad refl
    | inl fine ↦ rw fine refl
  ]

  below_of :
      (id : ℤ) (p : Profile) (db : Db)
      → IsSound db
      → get_profile_by_id id db ≡ ok p
      → (n : ℕ) × (p.id ≡ pos n) × (n ≤ db.profile_seq)
  unfolding get_profile_by_id
  below_of id p db h at =
      All-first_where (λ (q : Profile). q.id)
        (λ (q : Profile). (n : ℕ) × (q.id ≡ pos n) × (n ≤ db.profile_seq)) (λ q. q.id == id)
        db.profiles p h.keyed.below
        (found_of (first_where (λ (q : Profile). q.id == id) db.profiles) p at)

  id_of_found : (id : ℤ) (p : Profile) (db : Db) → get_profile_by_id id db ≡ ok p → p.id ≡ id
  unfolding get_profile_by_id
  id_of_found id p db at = (int_beq_iff p.id id).0 (
      first_where_holds (λ (q : Profile). q.id == id) db.profiles
        (found_of (first_where (λ (q : Profile). q.id == id) db.profiles) p at))

  pub tail-IsSound :
      (status : ℕ) (p : Profile) (token : Text) (s : Control)
      → IsSound s.db
      → IsSound (write_profile env ctx status p token s).1.db
  tail-IsSound status p token s h =
      subst (λ (t : Control). IsSound t.db) (sym (write_profile-db status p token s)) h

  pub patched-IsSound :
      (body : Result Failure Text) (p : Profile) (s : Control)
      → IsSound s.db
      → IsSound (patched env ctx body p s).1.db
  unfolding patched
  patched-IsSound (err refusal_) p s h = h
  patched-IsSound (ok given) p s h = elim (Bool-cases (is_display_name (trim_space given))) [
    | inr bad ↦ rw bad h
    | inl named_ ↦ elim (Option-cases env.write_fault) [
      | inr (e, bad) ↦ rw (named_, bad) h
      | inl fine ↦
          rw (named_, fine)
            (tail-IsSound 200 (record p { name = trim_space given }) [] _
              (audit-IsSound _ _ _ (update_profile_name p.id (trim_space given) s.db) (record {
                keyed = (profiles-IsKeyed s.db h.keyed).1 p.id (trim_space given);
                stocked = update_profile_name-IsStocked s.db h.stocked p.id (trim_space given);
              })))
    ]
  ]

  pub deleted-IsSound :
      (p : Profile) (s : Control) → IsSound s.db → IsSound (deleted env ctx p s).1.db
  unfolding deleted
  deleted-IsSound p s h = elim (Option-cases env.write_fault) [
    | inr (e, bad) ↦ rw bad h
    | inl fine ↦ rw fine (
        audit-IsSound _ _ _ (delete_profile p.id s.db) (record {
          keyed = (profiles-IsKeyed s.db h.keyed).3 p.id;
          stocked = delete_profile-IsStocked s.db h.stocked p.id;
        }))
  ]

  pub token_rotated-IsSound :
      (token : Result Error Text) (p : Profile) (s : Control)
      → IsSound s.db
      → IsSound (token_rotated env ctx token p s).1.db
  unfolding token_rotated
  token_rotated-IsSound (err e) p s h = h
  token_rotated-IsSound (ok token) p s h = elim (Option-cases env.write_fault) [
    | inr (e, bad) ↦ rw bad h
    | inl fine ↦ rw fine (
        tail-IsSound 200 p token _ (
          audit-IsSound _ _ _ (set_profile_token p.id (env.hash_token token) s.db) (record {
            keyed = (profiles-IsKeyed s.db h.keyed).2 p.id (env.hash_token token);
            stocked = set_profile_token-IsStocked s.db h.stocked p.id (env.hash_token token);
          })))
  ]

  pub replaced-IsSound :
      (names : List Text) (id : ℤ) (p : Profile) (db : Db)
      → get_profile_by_id id db ≡ ok p
      → all_installed (list_user_installs p.user_id db) names ≡ true
      → IsSound db
      → IsSound (bundle_replaced p.id names db)
  replaced-IsSound names id p db at all h = record {
    keyed =
        unfold bundle_replaced in
        (record { ids = h.keyed.ids; slugs = h.keyed.slugs; below = h.keyed.below });
    stocked =
        bundle_replaced-IsStocked db h.stocked p.id names p
          (ap (λ (i : ℤ). get_profile_by_id i db) (id_of_found id p db at) ∙ at)
          (below_of id p db h at)
          (λ n k.
            sym (listed p.user_id n db)
            ∙ all_installed-named (list_user_installs p.user_id db) names n all k);
  }

  set-cases :
      (id : ℤ) (names : List Text) (db : Db)
      → (set_profile_servers id names db ≡ (ok tt, bundle_replaced id names db))
        ⊎ (set_profile_servers id names db ≡ (err profile_not_found, db))
  unfolding set_profile_servers
  set-cases id names db = elim (Bool-cases (any (λ (q : Profile). q.id == id) db.profiles)) [
    | inl has ↦ inl (ground (arith, has))
    | inr gone ↦ inr (ground (arith, gone))
  ]

  stored-IsSound :
      (names : List Text) (p : Profile) (s : Control)
      → IsSound (bundle_replaced p.id names s.db)
      → IsSound s.db
      → (fault : Option Error)
      → let done = attempt fault (set_profile_servers p.id names) s.db in
        IsSound (bundle_stored env ctx names p done.0 done.1 s).1.db
  stored-IsSound names p s k h (some e) = h
  stored-IsSound names p s k h none = elim (set-cases p.id names s.db) [
    | inl has ↦ subst kept (sym has) (
        tail-IsSound 200 p [] _
          (audit-IsSound (lit "profile_servers") (join_commas names) (some p.id) _ k))
    | inr gone ↦ subst kept (sym gone) h
  ]
    where
      kept : Result Error (Unit {0}) × Db → Type 0
      kept done = IsSound (bundle_stored env ctx names p done.0 done.1 s).1.db

  pub bundle_put-IsSound :
      (body : Result Failure (List Text)) (id : ℤ) (p : Profile) (s : Control)
      → get_profile_by_id id s.db ≡ ok p
      → IsSound s.db
      → IsSound (bundle_put env ctx body p s).1.db
  unfolding bundle_put
  bundle_put-IsSound (err refusal_) id p s at h = h
  bundle_put-IsSound (ok names) id p s at h = elim (Option-cases env.read_fault) [
    | inr (e, bad) ↦ rw bad h
    | inl read ↦ elim (Bool-cases (all_installed (list_user_installs p.user_id s.db) names)) [
      | inr bad ↦ rw (read, bad) h
      | inl all ↦
          let done = attempt env.write_fault (set_profile_servers p.id names) s.db in
          let put : (bundle_put env ctx (ok names) p s).1
              ≡ (bundle_stored env ctx names p done.0 done.1 s).1 =
            ground (arith, read, all) in
          subst (λ (t : Control). IsSound t.db) (sym put)
            (stored-IsSound names p s (replaced-IsSound names id p s.db at all h) h env.write_fault)
    ]
  ]

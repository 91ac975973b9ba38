-- ===== src/Api/Requests/Sound.antt =====
-- The requests on profiles and installs keep what the tables promise.
use gigmcp.Base.{
  Text, [], ℤ, comparable_text, comparable_int, attempt, if◌then◌else◌, Option, none, some, Result,
  Result-cases, ok, err, unless_fault, parse_int, >>=-eq-ok, require-eq-ok, ◌≡◌, ◌⊎◌, inl, inr, ap,
  ◌∙◌, sym, subst, arith, Bool-cases, Option-cases,
}
use gigmcp.Store.Types.{Db, Profile, User, Error, slug_taken}
use gigmcp.Store.Installs.{install_for_user, uninstall_for_user}
use gigmcp.Store.Manifests.{get_manifest}
use gigmcp.Store.Profiles.{get_profile_by_id, create_profile}
use gigmcp.Store.Profiles.Tokens.{profiles-IsKeyed}
use gigmcp.Auth.Session.{Context}
use gigmcp.Api.Types.{Control, Env, Reply, Failure, failed, effective_user, with_db}
use gigmcp.Api.Names.{is_server_name}
use gigmcp.Api.Profiles.Stocked.{create_profile-IsStocked}
use gigmcp.Api.Profiles.Shelved.{install_for_user-IsStocked}
use gigmcp.Api.Profiles.Cut.{uninstall_for_user-IsStocked, uninstalled-IsKeyed}
use gigmcp.Api.Profiles.{
  ProfileReply, load_status, no_profile, effective_of, number_of, may_load, owner_id, created_reply,
  new_profile_of, handle_create_profile, on_loaded, load_owned_profile, write_profile, patched,
  deleted, bundle_put, token_rotated, handle_get_profile, handle_patch_profile,
  handle_delete_profile, handle_put_profile_servers, handle_rotate_profile_token,
}
use gigmcp.Api.Profiles.Ownership.{ProfileRequest, get, delete, rotate, patch, put_servers, handle}
use gigmcp.Api.Apps.{for_app, app_installed, app_uninstalled}
use gigmcp.Api.Requests.{
  IsSound, audit-IsSound, tail-IsSound, patched-IsSound, deleted-IsSound, token_rotated-IsSound,
  bundle_put-IsSound,
}

module _ (env : Env) (ctx : Option Context) where
  loaded_from :
      (text : Text) (db : Db) (p : Profile)
      → load_owned_profile env ctx text db ≡ ok p
      → (id : ℤ) × (get_profile_by_id id db ≡ ok p)
  unfolding load_owned_profile
  loaded_from text db p h =
      let (id, number, h1) = >>=-eq-ok (number_of (parse_int text)) _ h in
      let (q, loaded, h2) =
        >>=-eq-ok (load_status (unless_fault env.load_fault (get_profile_by_id id db))) _ h1 in
      let (c, user, h3) = >>=-eq-ok (effective_of ctx) _ h2 in
      let (may, h4) = require-eq-ok (may_load c q) no_profile _ h3 in
      (id, read_of (get_profile_by_id id db) q loaded ∙ same q h4)
    where
      read_of :
          (r : Result Error Profile) (q : Profile)
          → load_status (unless_fault env.load_fault r) ≡ ok q
          → r ≡ ok q
      read_of r q k = ground (arith, k)

      same :
          (q : Profile)
          → ◌≡◌ {A = Result Failure Profile} (ok q) (ok p)
          → ◌≡◌ {A = Result Error Profile} (ok q) (ok p)
      same q k = ap ok (cc)

  on_loaded-IsSound :
      (handler : Profile → Control → ProfileReply) (text : Text) (s : Control)
      → ((id : ℤ) (p : Profile) → get_profile_by_id id s.db ≡ ok p → IsSound (handler p s).1.db)
      → IsSound s.db
      → IsSound (on_loaded env ctx handler text s).1.db
  unfolding on_loaded
  on_loaded-IsSound handler text s keep h =
      elim (Result-cases (load_owned_profile env ctx text s.db)) [
        | inr (status, bad) ↦ rw (bad, on_loaded) h
        | inl (p, good) ↦
            let (id, at) = loaded_from text s.db p good in rw (good, on_loaded) (keep id p at)
      ]

  pub handle-IsSound :
      (r : ProfileRequest) (text : Text) (s : Control)
      → IsSound s.db
      → IsSound (handle env ctx r text s).1.db
  unfolding handle handle_get_profile handle_delete_profile handle_rotate_profile_token
      handle_patch_profile handle_put_profile_servers
  handle-IsSound get text s h =
      on_loaded-IsSound (λ p t. write_profile env ctx 200 p [] t) text s
        (λ id p at. tail-IsSound env ctx 200 p [] s h) h
  handle-IsSound delete text s h =
      on_loaded-IsSound (deleted env ctx) text s (λ id p at. deleted-IsSound env ctx p s h) h
  handle-IsSound rotate text s h =
      on_loaded-IsSound (token_rotated env ctx env.entropy) text s
        (λ id p at. token_rotated-IsSound env ctx env.entropy p s h) h
  handle-IsSound (patch body) text s h =
      on_loaded-IsSound (patched env ctx body) text s
        (λ id p at. patched-IsSound env ctx body p s h) h
  handle-IsSound (put_servers body) text s h =
      on_loaded-IsSound (bundle_put env ctx body) text s
        (λ id p at. bundle_put-IsSound env ctx body id p s at h) h

  created-IsSound :
      (token : Text) (r : Result Error Profile) (db : Db) (s : Control)
      → IsSound db
      → IsSound s.db
      → IsSound (created_reply env ctx token r db s).1.db
  created-IsSound token (ok p) db s h k =
      tail-IsSound env ctx 201 p token _ (audit-IsSound env ctx _ _ _ db h)
  created-IsSound token (err slug_taken) db s h k = k
  created-IsSound token (err e) db s h k = k

  made-IsSound :
      (slug name : Text) (user : ℤ) (hash : Text) (db : Db)
      → IsSound db
      → IsSound (attempt env.write_fault (create_profile env.now slug name user hash) db).1
  made-IsSound slug name user hash db h = by_fault env.write_fault
    where
      by_fault :
          (fault : Option Error)
          → IsSound (attempt fault (create_profile env.now slug name user hash) db).1
      by_fault (some e) = h
      by_fault none = record {
        keyed = (profiles-IsKeyed db h.keyed).0 env.now slug name user hash;
        stocked = create_profile-IsStocked db h.stocked env.now slug name user hash;
      }

  pub create-IsSound :
      (body : Result Failure (Text × Text)) (s : Control)
      → IsSound s.db
      → IsSound (handle_create_profile env ctx body s).1.db
  unfolding handle_create_profile
  create-IsSound body s h = elim (Result-cases (new_profile_of env ctx body)) [
    | inr (status, bad) ↦ rw (bad, handle_create_profile) h
    | inl ((name, slug, token), good) ↦
        let after = made-IsSound slug name (owner_id env ctx) (env.hash_token token) s.db h in
        rw (good, handle_create_profile) (created-IsSound token _ _ _ after after)
  ]

  -- The installs change, the profiles and their keys do not.
  install-IsSound :
      (user : ℤ) (name : Text) (db : Db) → IsSound db → IsSound (install_for_user user name db)
  install-IsSound user name db h = record {
    keyed =
        unfold install_for_user in
        (record { ids = h.keyed.ids; slugs = h.keyed.slugs; below = h.keyed.below });
    stocked = install_for_user-IsStocked db h.stocked user name;
  }

  uninstall-IsSound :
      (user : ℤ) (name : Text) (db : Db)
      → IsSound db
      → IsSound (uninstall_for_user user name env.cut db).1
  uninstall-IsSound user name db h = record {
    keyed = uninstalled-IsKeyed db h.keyed user name env.cut;
    stocked = uninstall_for_user-IsStocked db h.stocked user name env.cut;
  }

  installed_state :
      (user : User) (name : Text) (s : Control)
      → ((app_installed env ctx user name s).1 ≡ s)
        ⊎ ((app_installed env ctx user name s).1 ≡ with_db (install_for_user user.id name s.db) s)
  unfolding app_installed
  installed_state user name s = elim (Option-cases env.load_fault) [
    | inr (e, bad) ↦ inl (ground (arith, bad))
    | inl read ↦ elim (Result-cases (get_manifest name s.db)) [
      | inr (e, bad) ↦ inl (ground (arith, read, bad))
      | inl (m, has) ↦ elim (Option-cases env.write_fault) [
        | inr (e, bad) ↦ inl (ground (arith, read, has, bad))
        | inl fine ↦ inr (ground (arith, read, has, fine))
      ]
    ]
  ]

  pub installed-IsSound :
      (user : User) (name : Text) (s : Control)
      → IsSound s.db
      → IsSound (app_installed env ctx user name s).1.db
  installed-IsSound user name s h = elim (installed_state user name s) [
    | inl same ↦ subst (λ (t : Control). IsSound t.db) (sym same) h
    | inr new ↦
        subst (λ (t : Control). IsSound t.db) (sym new) (install-IsSound user.id name s.db h)
  ]

  pub uninstalled-IsSound :
      (user : User) (name : Text) (s : Control)
      → IsSound s.db
      → IsSound (app_uninstalled env ctx user name s).1.db
  unfolding app_uninstalled
  uninstalled-IsSound user name s h = uninstall-IsSound user.id name s.db h

  pub for_app-IsSound :
      (handler : User → Text → Control → Reply (Unit {0}) × Control) (name : Text) (s : Control)
      → ((user : User) → IsSound (handler user name s).1.db)
      → IsSound s.db
      → IsSound (for_app env ctx handler name s).1.db
  for_app-IsSound handler name s keep h = by_user (effective_user ctx)
    where
      by_user :
          (o : Option User)
          → IsSound (
              (elim o as (λ _. Reply (Unit {0}) × Control) [
                | none ↦ (failed 401, s)
                | some user ↦ if is_server_name name then handler user name s else (failed 400, s)
              ]).1.db)
      by_user none = h
      by_user (some user) = elim (Bool-cases (is_server_name name)) [
        | inr bad ↦ rw bad h
        | inl good ↦ rw good (keep user)
      ]

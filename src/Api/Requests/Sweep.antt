-- ===== src/Api/Requests/Sweep.antt =====
-- What uninstalling a server of the deployment keeps.
use gigmcp.Base.{
  Text, List, [], ◌∷◌, ℤ, ◌⊎◌, inl, inr, ap, ◌∙◌, false, comparable_text, comparable_int, Option,
  none, some, Result, ok, err, ◌≡◌, refl, sym, subst, arith,
}
use gigmcp.Store.Types.{Db, Error}
use gigmcp.Store.Installs.{is_user_installed, cascade_remove_server}
use gigmcp.Store.Manifests.{delete_manifest, delete_server}
use gigmcp.Store.AppTools.{delete_disabled_tools_for_server}
use gigmcp.Store.Profiles.{get_profile_by_id, remove_server_from_profiles}
use gigmcp.Auth.Session.{Context}
use gigmcp.Registry.Uninstaller.{Disk, uninstall}
use gigmcp.Api.Types.{Control, Env, invalidate, with_db}
use gigmcp.Store.Profiles.Bundles.{bundled}
use gigmcp.Api.Profiles.Shelved.{remove_server-IsStocked}
use gigmcp.Api.Profiles.Cut.{
  IsUncut, cascade_remove_server-IsStocked, cascaded-IsKeyed, remove_server-absent,
}
use gigmcp.Api.Servers.{Installer, invalidate_all, swept, uninstall_reply, handle_uninstall_server}
use gigmcp.Api.Requests.{IsSound, audit-IsSound}

-- Either the memberships are gone before the cascade, or it is not cut between its statements.
abbrev pub IsSwept : Env → Type 0
IsSwept env = (env.read_fault ≡ none) ⊎ IsUncut env.cut

module _ (env : Env) (ctx : Option Context) where
  -- The two sweeps after an uninstall of a server.
  removed-IsSound :
      (name : Text) (db : Db) → IsSound db → IsSound (remove_server_from_profiles name db).1
  removed-IsSound name db h = record {
    keyed =
        unfold remove_server_from_profiles in
        (record { ids = h.keyed.ids; slugs = h.keyed.slugs; below = h.keyed.below });
    stocked = remove_server-IsStocked db h.stocked name;
  }

  cascaded-IsSound :
      (name : Text) (db : Db)
      → IsSound db
      → ((id : ℤ) → bundled id name db ≡ false) ⊎ IsUncut env.cut
      → IsSound (cascade_remove_server name env.cut db).1
  cascaded-IsSound name db h way = record {
    keyed = cascaded-IsKeyed db h.keyed name env.cut;
    stocked = cascade_remove_server-IsStocked db h.stocked name env.cut way;
  }

  invalidate_all-db : (ids : List ℤ) (s : Control) → (invalidate_all ids s).db ≡ s.db
  unfolding invalidate_all
  invalidate_all-db [] s = refl
  invalidate_all-db (id ∷ ids) s = invalidate_all-db ids (invalidate id s)

  -- The tables between the two sweeps.
  abbrev first : Text → Control → Option Error → Control
  first name s fault = elim fault [
    | some e ↦ s
    | none ↦
        let gone = remove_server_from_profiles name s.db in invalidate_all gone.0 (with_db gone.1 s)
  ]

  first-db :
      (name : Text) (s : Control)
      → (first name s none).db ≡ (remove_server_from_profiles name s.db).1
  first-db name s = invalidate_all-db (remove_server_from_profiles name s.db).0 _

  first-IsSound :
      (name : Text) (s : Control) (fault : Option Error)
      → IsSound s.db
      → IsSound (first name s fault).db
  first-IsSound name s (some e) h = h
  first-IsSound name s none h = subst IsSound (sym (first-db name s)) (removed-IsSound name s.db h)

  first-absent :
      (name : Text) (s : Control) (fault : Option Error)
      → fault ≡ none
      → (id : ℤ) → bundled id name (first name s fault).db ≡ false
  first-absent name s (some e) h id = cc
  first-absent name s none h id =
      ap (λ (db : Db). bundled id name db) (first-db name s) ∙ remove_server-absent s.db name id

  way_of :
      (name : Text) (s : Control)
      → IsSwept env
      → ((id : ℤ) → bundled id name (first name s env.read_fault).db ≡ false) ⊎ IsUncut env.cut
  way_of name s (inl fine) = inl (first-absent name s env.read_fault fine)
  way_of name s (inr uncut) = inr uncut

  swept-IsSound :
      (i : Option Installer) (name : Text) (s : Control)
      → IsSwept env
      → IsSound s.db
      → IsSound (swept env i ctx name s).db
  unfolding swept
  swept-IsSound i name s way h = audit-IsSound env ctx _ _ _ _ (
      cascaded-IsSound name (first name s env.read_fault).db (first-IsSound name s env.read_fault h)
        (way_of name s way))

  -- Deleting servers, manifests and tools leaves what the property reads.
  same_tables :
      (db after : Db)
      → after.profiles ≡ db.profiles
      → after.profile_seq ≡ db.profile_seq
      → after.profile_servers ≡ db.profile_servers
      → after.user_installs ≡ db.user_installs
      → IsSound db
      → IsSound after
  unfolding get_profile_by_id is_user_installed
  same_tables db after profiles seq servers installs h = record {
    keyed = record {
      ids = rw profiles h.keyed.ids;
      slugs = rw profiles h.keyed.slugs;
      below = rw (profiles, seq) h.keyed.below;
    };
    stocked = record {
      known = rw (servers, seq) h.stocked.known;
      installed = rw (servers, profiles, installs) h.stocked.installed;
    };
  }

  uninstall-tables :
      (d : Disk) (name : Text) (db : Db)
      → let after = (uninstall d name db).1 in
        (after.profiles ≡ db.profiles)
        × (after.profile_seq ≡ db.profile_seq)
        × (after.profile_servers ≡ db.profile_servers)
        × (after.user_installs ≡ db.user_installs)
  unfolding uninstall delete_manifest delete_server delete_disabled_tools_for_server
  uninstall-tables d name db = (ground arith, ground arith, ground arith, ground arith)

  pub uninstall_server-IsSound :
      (i : Option Installer) (name : Text) (s : Control)
      → IsSwept env
      → IsSound s.db
      → IsSound (handle_uninstall_server env i ctx name s).1.db
  unfolding handle_uninstall_server
  uninstall_server-IsSound none name s way h = h
  uninstall_server-IsSound (some i) name s way h =
      replied (uninstall i.disk name s.db).0 (uninstall i.disk name s.db).1 (kept i.disk)
    where
      kept : (d : Disk) → IsSound (uninstall d name s.db).1
      kept d =
          let t = uninstall-tables d name s.db in
          same_tables s.db (uninstall d name s.db).1 t.0 t.1 t.2 t.3 h

      replied :
          (r : Result Error (Unit {0})) (db : Db)
          → IsSound db
          → IsSound (uninstall_reply env (some i) ctx name r (with_db db s)).1.db
      replied (err e) db k = k
      replied (ok done) db k = swept-IsSound (some i) name (with_db db s) way k

-- ===== src/Api/Profiles/Cut.antt =====
-- Uninstalls that a failing statement cuts short keep every bundle within the installs, unless it
-- is the sweep of a server that is still in a bundle.
use gigmcp.Base.{
  Text, zero, suc, ℤ, true, false, ◌&&◌, ◌==◌, comparable_text, comparable_int, delete_where, none,
  some, ◌≡◌, ◌⊎◌, inl, inr, ◌∙◌, subst, arith, text_beq_iff, Bool-cases, any-delete_where,
}
use gigmcp.Store.Types.{Db, Install}
use gigmcp.Store.Installs.{
  Cut, executed, without_memberships, without_tools, without_install, uninstall_for_user,
  cascade_remove_server, is_user_installed, is_install, owned_by,
}
use gigmcp.Store.Installs.Isolation.{uninstalled}
use gigmcp.Store.Profiles.{IsKeyed, get_profile_by_id, remove_server_from_profiles}
use gigmcp.Store.Profiles.Bundles.{bundled, remove_server_from_profiles-bundled}
use gigmcp.Api.Profiles.Stocked.{IsStocked}
use gigmcp.Api.Profiles.Shelved.{fewer, remove_server-IsStocked, uninstalled-IsStocked}

-- No statement fails, or the first one: whatever runs, runs to its end. The last of the three is
-- the third.
abbrev pub IsUncut : Cut → Type 0
IsUncut none = Unit
IsUncut (some (zero, e)) = Unit
IsUncut (some (suc zero, e)) = ⊥
IsUncut (some (suc (suc zero), e)) = ⊥
IsUncut (some (suc (suc (suc n)), e)) = Unit

-- Uninstalling takes the memberships first.
pub uninstall_for_user-IsStocked :
    (db : Db) (h : IsStocked db) (user : ℤ) (server : Text) (cut : Cut)
    → IsStocked (uninstall_for_user user server cut db).1
unfolding uninstall_for_user executed uninstalled without_memberships without_tools without_install
    get_profile_by_id is_user_installed
uninstall_for_user-IsStocked db h user server none = uninstalled-IsStocked db h user server
uninstall_for_user-IsStocked db h user server (some (zero, e)) = h
uninstall_for_user-IsStocked db h user server (some (suc zero, e)) =
    fewer db h (λ row. row.server_name == server && owned_by db.profiles user row)
uninstall_for_user-IsStocked db h user server (some (suc (suc zero), e)) =
    let k = fewer db h (λ row. row.server_name == server && owned_by db.profiles user row) in
    record { known = k.known; installed = k.installed }
uninstall_for_user-IsStocked db h user server (some (suc (suc (suc n)), e)) =
    uninstalled-IsStocked db h user server

-- The sweep of a server takes the installs first.
abbrev uninstalled_by_all : Text → Db → Db
uninstalled_by_all server db = record db {
  user_installs = delete_where (λ row. row.server == server) db.user_installs;
}

module _ (db : Db) (h : IsStocked db) (server : Text) where
  absent-IsStocked :
      ((id : ℤ) → bundled id server db ≡ false) → IsStocked (uninstalled_by_all server db)
  unfolding get_profile_by_id is_user_installed
  absent-IsStocked absent = record {
    known = h.known;
    installed = λ id name p b at. elim (Bool-cases (name == server)) [
      | inl e ↦ absurd (
          ground (
            arith,
            absent id,
            subst (λ (t : Text). bundled id t db ≡ true) ((text_beq_iff name server).0 e) b,
          ))
      | inr e ↦
          any-delete_where (is_install p.user_id name) (λ (row : Install). row.server == server)
            db.user_installs
            (λ row k. ground (
              arith,
              text_beq_iff row.server name,
              text_beq_iff row.server server,
              text_beq_iff name server,
            ))
          ∙ h.installed id name p b at
    ];
  }

pub remove_server-absent :
    (db : Db) (server : Text) (id : ℤ)
    → bundled id server (remove_server_from_profiles server db).1 ≡ false
remove_server-absent db server id =
    (remove_server_from_profiles-bundled server db id server).1
    ∙ ground (arith, text_beq_iff server server)

-- Run to its end, the sweep takes the memberships too.
whole-IsStocked :
    (db : Db) (h : IsStocked db) (server : Text)
    → IsStocked (cascade_remove_server server none db).1
unfolding cascade_remove_server executed remove_server_from_profiles get_profile_by_id
    is_user_installed
whole-IsStocked db h server =
    let removed = (remove_server_from_profiles server db).1 in
    let k =
      absent-IsStocked removed (remove_server-IsStocked db h server) server
        (λ id. remove_server-absent db server id) in
    record { known = k.known; installed = k.installed }

pub cascade_remove_server-IsStocked :
    (db : Db) (h : IsStocked db) (server : Text) (cut : Cut)
    → ((id : ℤ) → bundled id server db ≡ false) ⊎ IsUncut cut
    → IsStocked (cascade_remove_server server cut db).1
unfolding cascade_remove_server executed get_profile_by_id is_user_installed
cascade_remove_server-IsStocked db h server none way = whole-IsStocked db h server
cascade_remove_server-IsStocked db h server (some (zero, e)) way = h
cascade_remove_server-IsStocked db h server (some (suc zero, e)) (inl absent) =
    absent-IsStocked db h server absent
cascade_remove_server-IsStocked db h server (some (suc (suc zero), e)) (inl absent) =
    let k = absent-IsStocked db h server absent in
    record { known = k.known; installed = k.installed }
cascade_remove_server-IsStocked db h server (some (suc zero, e)) (inr cut) = absurd cut
cascade_remove_server-IsStocked db h server (some (suc (suc zero), e)) (inr cut) = absurd cut
cascade_remove_server-IsStocked db h server (some (suc (suc (suc n)), e)) way =
    whole-IsStocked db h server

-- Neither touches the profiles.
pub uninstalled-IsKeyed :
    (db : Db) (h : IsKeyed db) (user : ℤ) (server : Text) (cut : Cut)
    → IsKeyed (uninstall_for_user user server cut db).1
unfolding uninstall_for_user executed without_memberships without_tools without_install
uninstalled-IsKeyed db h user server none = record { ids = h.ids; slugs = h.slugs; below = h.below }
uninstalled-IsKeyed db h user server (some (zero, e)) = h
uninstalled-IsKeyed db h user server (some (suc zero, e)) = record {
  ids = h.ids;
  slugs = h.slugs;
  below = h.below;
}
uninstalled-IsKeyed db h user server (some (suc (suc zero), e)) = record {
  ids = h.ids;
  slugs = h.slugs;
  below = h.below;
}
uninstalled-IsKeyed db h user server (some (suc (suc (suc n)), e)) = record {
  ids = h.ids;
  slugs = h.slugs;
  below = h.below;
}

pub cascaded-IsKeyed :
    (db : Db) (h : IsKeyed db) (server : Text) (cut : Cut)
    → IsKeyed (cascade_remove_server server cut db).1
unfolding cascade_remove_server executed
cascaded-IsKeyed db h server none = record { ids = h.ids; slugs = h.slugs; below = h.below }
cascaded-IsKeyed db h server (some (zero, e)) = h
cascaded-IsKeyed db h server (some (suc zero, e)) = record {
  ids = h.ids;
  slugs = h.slugs;
  below = h.below;
}
cascaded-IsKeyed db h server (some (suc (suc zero), e)) = record {
  ids = h.ids;
  slugs = h.slugs;
  below = h.below;
}
cascaded-IsKeyed db h server (some (suc (suc (suc n)), e)) = record {
  ids = h.ids;
  slugs = h.slugs;
  below = h.below;
}

-- ===== src/Store/Installs/Isolation.antt =====
-- Uninstalling is a user's own affair, and removing a server is everybody's.
use gigmcp.Base.{
  Text, List, [], zero, suc, ℤ, none, some, Result, ok, err, refl, Bool, true, false, ◌&&◌, ◌==◌,
  ◌≡◌, ◌≢◌, ◌⊎◌, ap, sym, comparable_text, comparable_int, any, map, arith, text_beq_iff,
  int_beq_iff, where_-delete_where, where_-deleted, any-delete_where, any-deleted,
}
use gigmcp.Store.Types.{Db, DisabledTool, Membership, Error}
use gigmcp.Store.Installs.{
  Cut, executed, without_memberships, without_tools, without_install, uninstall_for_user,
  is_user_installed, list_user_disabled_tools, get_profile_servers, is_install, owned_by, order,
}

-- Whether the user owns the profile.
abbrev pub owns : ℤ → ℤ → Db → Bool
owns user id db = any (λ p. p.user_id == user && p.id == id) db.profiles

abbrev pub bundled : ℤ → Text → Db → Bool
bundled id server db =
    any (λ row. row.profile_id == id && row.server_name == server) db.profile_servers

-- The tables after all three statements, and after the first one or two.
unfoldable pub unbundled : ℤ → Text → Db → Db
unfolding without_memberships
unbundled = without_memberships

unfoldable pub untooled : ℤ → Text → Db → Db
unfolding without_memberships without_tools
untooled user server db = without_tools user server (without_memberships user server db)

unfoldable pub uninstalled : ℤ → Text → Db → Db
unfolding without_memberships without_tools without_install
uninstalled user server db =
    without_install user server (without_tools user server (without_memberships user server db))

-- Nothing changed but what is the user's and the server's.
pub record IsContained (user : ℤ) (server : Text) (db after : Db) : Type 0 where
  -- other pairs of a user and a server keep their install and their tools
  pub others :
      (u : ℤ) (s : Text)
      → (u ≢ user) ⊎ (s ≢ server)
      → (is_user_installed u s after ≡ is_user_installed u s db)
        × (list_user_disabled_tools u s after ≡ list_user_disabled_tools u s db)
  -- what else the user's profiles hold stays
  own_rest : (id : ℤ) (s : Text) → s ≢ server → bundled id s after ≡ bundled id s db
  -- a profile that the user does not own keeps its bundle
  foreign :
      (id : ℤ) → owns user id db ≡ false → get_profile_servers id after ≡ get_profile_servers id db
  -- and so does every other table
  rest :
      record after {
        profile_servers = db.profile_servers;
        user_disabled_tools = db.user_disabled_tools;
        user_installs = db.user_installs;
      }
      ≡ db

pub record IsUninstalled (user : ℤ) (server : Text) (db after : Db) : Type 0 where
  pub gone : is_user_installed user server after ≡ false
  pub tools_gone : list_user_disabled_tools user server after ≡ []
  -- the user's profiles no longer hold the server
  pub own : (id : ℤ) → owns user id db ≡ true → bundled id server after ≡ false
  pub contained : IsContained user server db after

-- How it ends: all is gone, or the install is still there.
abbrev pub Ended : ℤ → Text → Db → Result Error (Unit {0}) × Db → Type 0
Ended user server db (ok done, after) = IsUninstalled user server db after
Ended user server db (err e, after) =
    (after.user_installs ≡ db.user_installs) × IsContained user server db after

module _ (user : ℤ) (server : Text) where
  kept_apart :
      (u : ℤ) (s : Text)
      → (u ≢ user) ⊎ (s ≢ server)
      → (a : ℤ) (b : Text) → (a == u && b == s) ≡ true
      → (a == user && b == server) ≡ false
  kept_apart u s d a b h =
      ground (arith, int_beq_iff a u, int_beq_iff a user, text_beq_iff b s, text_beq_iff b server)

  owns-at : (a b : ℤ) (db : Db) → (a == b) ≡ true → owns user b db ≡ owns user a db
  owns-at a b db h = ap (λ (id : ℤ). owns user id db) (sym ((int_beq_iff a b).0 h))

  others_installed :
      (db : Db) (u : ℤ) (s : Text)
      → (u ≢ user) ⊎ (s ≢ server)
      → is_user_installed u s (uninstalled user server db) ≡ is_user_installed u s db
  unfolding is_user_installed uninstalled
  others_installed db u s d =
      any-delete_where (is_install u s) (is_install user server) db.user_installs
        (λ row. kept_apart u s d row.user_id row.server)

  others_tools :
      (db : Db) (u : ℤ) (s : Text)
      → (u ≢ user) ⊎ (s ≢ server)
      → list_user_disabled_tools u s (uninstalled user server db) ≡ list_user_disabled_tools u s db
  unfolding list_user_disabled_tools uninstalled
  others_tools db u s d =
      ap (λ (rows : List DisabledTool). order (map (λ row. row.tool) rows))
        (where_-delete_where (λ row. row.user_id == u && row.server == s)
          (λ row. row.user_id == user && row.server == server) db.user_disabled_tools
          (λ row. kept_apart u s d row.user_id row.server))

  tools_cleared : (db : Db) → list_user_disabled_tools user server (uninstalled user server db) ≡ []
  unfolding list_user_disabled_tools uninstalled
  tools_cleared db =
      ap (λ (rows : List DisabledTool). order (map (λ row. row.tool) rows))
        (where_-deleted (λ row. row.user_id == user && row.server == server)
          (λ row. row.user_id == user && row.server == server) db.user_disabled_tools (λ row h. h))

  install_gone : (db : Db) → is_user_installed user server (uninstalled user server db) ≡ false
  unfolding is_user_installed uninstalled
  install_gone db =
      any-deleted (is_install user server) (is_install user server) db.user_installs (λ row h. h)

  own_bundle :
      (db : Db) (id : ℤ)
      → owns user id db ≡ true
      → bundled id server (uninstalled user server db) ≡ false
  unfolding uninstalled
  own_bundle db id mine =
      any-deleted (λ row. row.profile_id == id && row.server_name == server)
        (λ row. row.server_name == server && owned_by db.profiles user row) db.profile_servers
        (λ row h. ground (arith, owns-at row.profile_id id db))

  own_bundle_rest :
      (db : Db) (id : ℤ) (s : Text)
      → s ≢ server
      → bundled id s (uninstalled user server db) ≡ bundled id s db
  unfolding uninstalled
  own_bundle_rest db id s ne =
      any-delete_where (λ row. row.profile_id == id && row.server_name == s)
        (λ row. row.server_name == server && owned_by db.profiles user row) db.profile_servers
        (λ row h.
          ground (arith, text_beq_iff row.server_name s, text_beq_iff row.server_name server))

  foreign_bundle :
      (db : Db) (id : ℤ)
      → owns user id db ≡ false
      → get_profile_servers id (uninstalled user server db) ≡ get_profile_servers id db
  unfolding get_profile_servers uninstalled
  foreign_bundle db id other =
      ap (λ (rows : List Membership). order (map (λ row. row.server_name) rows))
        (where_-delete_where (λ row. row.profile_id == id)
          (λ row. row.server_name == server && owned_by db.profiles user row) db.profile_servers
          (λ row h. ground (arith, owns-at row.profile_id id db)))

pub uninstalled-IsUninstalled :
    (user : ℤ) (server : Text) (db : Db) → IsUninstalled user server db (uninstalled user server db)
uninstalled-IsUninstalled user server db = record {
  gone = install_gone user server db;
  tools_gone = tools_cleared user server db;
  own = own_bundle user server db;
  contained = record {
    others = λ u s d. (others_installed user server db u s d, others_tools user server db u s d);
    own_rest = own_bundle_rest user server db;
    foreign = foreign_bundle user server db;
    rest = unfold uninstalled in refl;
  };
}

unbundled-IsContained :
    (user : ℤ) (server : Text) (db : Db) → IsContained user server db (unbundled user server db)
unfolding unbundled uninstalled is_user_installed list_user_disabled_tools get_profile_servers
unbundled-IsContained user server db = record {
  others = λ u s d. (refl, refl);
  own_rest = own_bundle_rest user server db;
  foreign = foreign_bundle user server db;
  rest = refl;
}

untooled-IsContained :
    (user : ℤ) (server : Text) (db : Db) → IsContained user server db (untooled user server db)
unfolding untooled uninstalled is_user_installed list_user_disabled_tools get_profile_servers
untooled-IsContained user server db = record {
  others = λ u s d. (refl, others_tools user server db u s d);
  own_rest = own_bundle_rest user server db;
  foreign = foreign_bundle user server db;
  rest = refl;
}

self-IsContained : (user : ℤ) (server : Text) (db : Db) → IsContained user server db db
self-IsContained user server db = record {
  others = λ u s d. (refl, refl);
  own_rest = λ id s n. refl;
  foreign = λ id n. refl;
  rest = refl;
}

-- Uninstalling that succeeds removes the user's install of the server, the user's tool settings for
-- it, and the server from the user's own profiles. When one of its statements fails, all installs
-- stay. In both cases the installs and tool settings of every other pair of user and server, all
-- other members of bundles, the profiles of other users and all other tables stay as they were.
pub uninstall_for_user-IsUninstalled :
    (user : ℤ) (server : Text) (cut : Cut) (db : Db)
    → Ended user server db (uninstall_for_user user server cut db)
unfolding uninstall_for_user executed unbundled untooled uninstalled
uninstall_for_user-IsUninstalled user server none db = uninstalled-IsUninstalled user server db
uninstall_for_user-IsUninstalled user server (some (zero, e)) db =
    (refl, self-IsContained user server db)
uninstall_for_user-IsUninstalled user server (some (suc zero, e)) db =
    (refl, unbundled-IsContained user server db)
uninstall_for_user-IsUninstalled user server (some (suc (suc zero), e)) db =
    (refl, untooled-IsContained user server db)
uninstall_for_user-IsUninstalled user server (some (suc (suc (suc n)), e)) db =
    uninstalled-IsUninstalled user server db

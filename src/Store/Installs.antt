-- ===== src/Store/Installs.antt =====
-- internal/store/userinstalls.go, usertools.go and the cascade of manifests.go: which user has
-- installed which server, and which of its tools the user turned off.
pub mod Isolation
use gigmcp.Base.{
  Text, List, [], ◌∷◌, ◌++◌, ℤ, Bool, true, false, ◌&&◌, ◌||◌, not, ◌==◌, comparable_text,
  comparable_int, any, where_, map, delete_where, insert_or_ignore, if◌then◌else◌, leb, ℕ, zero,
  suc, Option, none, some, Result, ok, err,
}
use gigmcp.Store.Types.{Db, Install, DisabledTool, Membership, Profile, Error}

-- ORDER BY of a text column: binary collation.
unfoldable pub text_le : Text → Text → Bool
text_le [] t = true
text_le (c ∷ s) [] = false
text_le (c ∷ s) (d ∷ t) = if leb d c then if leb c d then text_le s t else false else true

unfoldable pub insert_sorted : Text → List Text → List Text
unfolding text_le
insert_sorted t [] = t ∷ []
insert_sorted t (s ∷ l) = if text_le t s then t ∷ s ∷ l else s ∷ insert_sorted t l

unfoldable pub order : List Text → List Text
unfolding insert_sorted
order [] = []
order (t ∷ l) = insert_sorted t (order l)

-- Rows in the order of a text column.
module _ {ℓ} {A : Type ℓ} (key : A → Text) where
  unfoldable pub insert_by : A → List A → List A
  unfolding text_le
  insert_by a [] = a ∷ []
  insert_by a (b ∷ l) = if text_le (key a) (key b) then a ∷ b ∷ l else b ∷ insert_by a l

  unfoldable pub order_by : List A → List A
  unfolding insert_by
  order_by [] = []
  order_by (a ∷ l) = insert_by a (order_by l)

abbrev pub is_install : ℤ → Text → Install → Bool
is_install user server row = row.user_id == user && row.server == server

abbrev pub is_disabled : ℤ → Text → Text → DisabledTool → Bool
is_disabled user server tool row = row.user_id == user && row.server == server && row.tool == tool

unfoldable pub install_for_user : ℤ → Text → Db → Db
install_for_user user server db = record db {
  user_installs =
      insert_or_ignore (is_install user server) (record { user_id = user; server = server })
        db.user_installs;
}

-- `profile_id IN (SELECT id FROM profiles WHERE user_id=?)`
abbrev pub owned_by : List Profile → ℤ → Membership → Bool
owned_by profiles user row = any (λ p. p.user_id == user && p.id == row.profile_id) profiles

-- Statements that run one after the other without a transaction: with `some (n, e)` the one after
-- the first n of them fails, and what these did stays.
abbrev pub Cut : Type 0
Cut = Option (ℕ × Error)

unfoldable pub executed : List (Db → Db) → Cut → Db → Result Error (Unit {0}) × Db
executed [] cut db = (ok tt, db)
executed (q ∷ qs) none db = executed qs none (q db)
executed (q ∷ qs) (some (zero, e)) db = (err e, db)
executed (q ∷ qs) (some (suc n, e)) db = executed qs (some (n, e)) (q db)

unfoldable pub without_memberships : ℤ → Text → Db → Db
without_memberships user server db = record db {
  profile_servers =
      delete_where (λ row. row.server_name == server && owned_by db.profiles user row)
        db.profile_servers;
}

unfoldable pub without_tools : ℤ → Text → Db → Db
without_tools user server db = record db {
  user_disabled_tools =
      delete_where (λ row. row.user_id == user && row.server == server) db.user_disabled_tools;
}

unfoldable pub without_install : ℤ → Text → Db → Db
without_install user server db = record db {
  user_installs = delete_where (is_install user server) db.user_installs;
}

unfoldable pub uninstall_for_user : ℤ → Text → Cut → Db → Result Error (Unit {0}) × Db
unfolding executed without_memberships without_tools without_install
uninstall_for_user user server =
    executed (
      without_memberships user server
      ∷ without_tools user server
      ∷ without_install user server
      ∷ [])

unfoldable pub is_user_installed : ℤ → Text → Db → Bool
is_user_installed user server db = any (is_install user server) db.user_installs

unfoldable pub list_user_installs : ℤ → Db → List Text
unfolding order
list_user_installs user db =
    order (map (λ row. row.server) (where_ (λ row. row.user_id == user) db.user_installs))

unfoldable pub set_user_tool_enabled : ℤ → Text → Text → Bool → Db → Db
set_user_tool_enabled user server tool true db = record db {
  user_disabled_tools = delete_where (is_disabled user server tool) db.user_disabled_tools;
}
set_user_tool_enabled user server tool false db = record db {
  user_disabled_tools =
      insert_or_ignore (is_disabled user server tool)
        (record { user_id = user; server = server; tool = tool }) db.user_disabled_tools;
}

unfoldable pub list_user_disabled_tools : ℤ → Text → Db → List Text
unfolding order
list_user_disabled_tools user server db = order (
    map (λ row. row.tool)
      (where_ (λ row. row.user_id == user && row.server == server) db.user_disabled_tools))

-- profiles.go: GetProfileServers
unfoldable pub get_profile_servers : ℤ → Db → List Text
unfolding order
get_profile_servers id db =
    order (map (λ row. row.server_name) (where_ (λ row. row.profile_id == id) db.profile_servers))

unfoldable pub cascade_remove_server : Text → Cut → Db → Result Error (Unit {0}) × Db
unfolding executed
cascade_remove_server server = executed (
    (λ db. record db {
      user_installs = delete_where (λ row. row.server == server) db.user_installs;
    })
    ∷ (λ db. record db {
      user_disabled_tools = delete_where (λ row. row.server == server) db.user_disabled_tools;
    })
    ∷ (λ db. record db {
      profile_servers = delete_where (λ row. row.server_name == server) db.profile_servers;
    })
    ∷ [])

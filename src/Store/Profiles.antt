-- ===== src/Store/Profiles.antt =====
-- internal/store/profiles.go
pub mod Tokens
pub mod Bundles
use gigmcp.Base.{
  Text, List, [], ◌∷◌, ◌++◌, ℕ, ◌+◌, ℤ, pos, Bool, true, false, ◌&&◌, not, ◌==◌, comparable_text,
  comparable_int, any, where_, map, first_where, delete_where, update_where, insert_or_ignore,
  if◌then◌else◌, Option, none, some, Result, ok, err, All, IsKeyedBy, ◌≤◌, ◌≡◌,
}
use gigmcp.Store.Types.{
  Db, Profile, Membership, Error, profile_not_found, slug_taken, unix, from_unix,
}

-- scanProfile, of the row that was found
abbrev pub found : Option Profile → Result Error Profile
found none = err profile_not_found
found (some p) = ok p

unfoldable pub new_profile : ℕ → Text → Text → ℤ → Text → Db → Profile
new_profile now slug name user hash db = record {
  id = pos (db.profile_seq + 1);
  slug = slug;
  name = name;
  user_id = user;
  token_hash = hash;
  meta_tools = false;
  created_at = from_unix (unix now);
}

unfoldable pub create_profile : ℕ → Text → Text → ℤ → Text → Db → Result Error Profile × Db
unfolding new_profile any
create_profile now slug name user hash db =
    if any (λ p. p.slug == slug) db.profiles then (err slug_taken, db) else (
      ok (new_profile now slug name user hash db),
      record db {
        profiles = db.profiles ++ new_profile now slug name user hash db ∷ [];
        profile_seq = db.profile_seq + 1;
      },
    )

unfoldable pub get_profile_by_id : ℤ → Db → Result Error Profile
get_profile_by_id id db = found (first_where (λ p. p.id == id) db.profiles)

unfoldable pub get_profile_by_slug_and_token_hash : Text → Text → Db → Result Error Profile
get_profile_by_slug_and_token_hash slug hash db =
    found (first_where (λ p. p.slug == slug && p.token_hash == hash) db.profiles)

-- The rows stand in the order of their ids; 0 asks for every user's.
unfoldable pub list_profiles : ℤ → Db → List Profile
list_profiles user db =
    if user == pos 0 then db.profiles else where_ (λ p. p.user_id == user) db.profiles

unfoldable pub update_profile_name : ℤ → Text → Db → Db
update_profile_name id name db = record db {
  profiles = update_where (λ p. p.id == id) (λ p. record p { name = name }) db.profiles;
}

unfoldable pub set_profile_token : ℤ → Text → Db → Db
set_profile_token id hash db = record db {
  profiles = update_where (λ p. p.id == id) (λ p. record p { token_hash = hash }) db.profiles;
}

unfoldable pub delete_profile : ℤ → Db → Db
delete_profile id db = record db {
  profile_servers = delete_where (λ row. row.profile_id == id) db.profile_servers;
  profiles = delete_where (λ p. p.id == id) db.profiles;
}

abbrev pub is_member : ℤ → Text → Membership → Bool
is_member id name row = row.profile_id == id && row.server_name == name

-- The loop of INSERT OR IGNORE.
unfoldable pub add_servers : ℤ → List Text → List Membership → List Membership
add_servers id [] rows = rows
add_servers id (n ∷ names) rows =
    add_servers id names
      (insert_or_ignore (is_member id n) (record { profile_id = id; server_name = n }) rows)

-- The two statements of the transaction.
unfoldable pub bundle_replaced : ℤ → List Text → Db → Db
unfolding add_servers
bundle_replaced id names db = record db {
  profile_servers =
      add_servers id names (delete_where (λ row. row.profile_id == id) db.profile_servers);
}

unfoldable pub set_profile_servers : ℤ → List Text → Db → Result Error (Unit {0}) × Db
unfolding bundle_replaced any
set_profile_servers id names db =
    if any (λ p. p.id == id) db.profiles
    then (ok tt, bundle_replaced id names db)
    else (err profile_not_found, db)

-- The profiles that were affected are returned beside the new state.
unfoldable pub remove_server_from_profiles : Text → Db → List ℤ × Db
remove_server_from_profiles server db =
    let ids =
      map (λ row. row.profile_id) (where_ (λ row. row.server_name == server) db.profile_servers) in
    (
      ids,
      record db {
        profile_servers = delete_where (λ row. row.server_name == server) db.profile_servers;
      },
    )

-- PRIMARY KEY and UNIQUE of the table, and AUTOINCREMENT's promise that a key is never given out
-- again.
pub record IsKeyed (db : Db) : Type 0 where
  pub ids : IsKeyedBy (λ (p : Profile). p.id) db.profiles
  pub slugs : IsKeyedBy (λ (p : Profile). p.slug) db.profiles
  pub below : All (λ (p : Profile). (n : ℕ) × (p.id ≡ pos n) × (n ≤ db.profile_seq)) db.profiles

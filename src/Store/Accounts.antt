-- ===== src/Store/Accounts.antt =====
-- internal/store/connaccounts.go: a user's connections to vendors; sqlite.go: the servers.
pub mod Rotation
use gigmcp.Base.{
  Text, List, [], ◌∷◌, ℕ, ◌+◌, ℤ, pos, Bool, ◌&&◌, ◌==◌, comparable_text, comparable_int, any,
  where_, first_where, delete_where, update_where, upsert, if◌then◌else◌, Option, none, some,
  Result, ok, err, join_lines, read_lines, map,
}
use gigmcp.Store.Types.{
  Db, Server, ConnectedAccount, Error, connected_account_not_found, unix, from_unix,
}
use gigmcp.Store.Installs.{text_le, order_by}

abbrev pub of_vendor : ℤ → Text → ConnectedAccount → Bool
of_vendor user vendor c = c.user_id == user && c.vendor == vendor

abbrev pub stored_account : ConnectedAccount → ConnectedAccount
stored_account c = record c {
  expires_at = from_unix (unix c.expires_at);
  granted_scopes = read_lines (join_lines c.granted_scopes);
}

unfoldable pub put_connected_account : ConnectedAccount → Db → Db
put_connected_account c db = record db {
  connected_accounts =
      upsert (of_vendor c.user_id c.vendor) (λ old. stored_account c) (stored_account c)
        db.connected_accounts;
}

abbrev pub rotated : Text → ℕ → ConnectedAccount → ConnectedAccount
rotated access expires_at c = record c {
  encrypted_access_token = access;
  expires_at = from_unix (unix expires_at);
}

unfoldable pub update_connected_account_tokens :
    ℤ → Text → Text → ℕ → Db → Result Error (Unit {0}) × Db
unfolding any
update_connected_account_tokens user vendor access expires_at db = (
  if any (of_vendor user vendor) db.connected_accounts
      then ok tt
      else err connected_account_not_found,
  record db {
    connected_accounts =
        update_where (of_vendor user vendor) (rotated access expires_at) db.connected_accounts;
  },
)

abbrev pub found_account : Option ConnectedAccount → Result Error ConnectedAccount
found_account none = err connected_account_not_found
found_account (some c) = ok c

unfoldable pub get_connected_account : ℤ → Text → Db → Result Error ConnectedAccount
get_connected_account user vendor db =
    found_account (first_where (of_vendor user vendor) db.connected_accounts)

-- ORDER BY vendor
unfoldable pub insert_by_vendor : ConnectedAccount → List ConnectedAccount → List ConnectedAccount
unfolding text_le
insert_by_vendor c [] = c ∷ []
insert_by_vendor c (d ∷ l) =
    if text_le c.vendor d.vendor then c ∷ d ∷ l else d ∷ insert_by_vendor c l

unfoldable pub by_vendor : List ConnectedAccount → List ConnectedAccount
unfolding insert_by_vendor
by_vendor [] = []
by_vendor (c ∷ l) = insert_by_vendor c (by_vendor l)

-- The SELECT leaves the tokens out.
abbrev pub without_tokens : ConnectedAccount → ConnectedAccount
without_tokens c = record c { encrypted_refresh_token = []; encrypted_access_token = [] }

unfoldable pub list_connected_accounts_by_user : ℤ → Db → List ConnectedAccount
unfolding by_vendor
list_connected_accounts_by_user user db =
    map (λ (c : ConnectedAccount). without_tokens c)
      (by_vendor (where_ (λ c. c.user_id == user) db.connected_accounts))

unfoldable pub delete_connected_account : ℤ → Text → Db → Db
delete_connected_account user vendor db = record db {
  connected_accounts = delete_where (of_vendor user vendor) db.connected_accounts;
}

abbrev pub named_server : Text → Server → Bool
named_server name srv = srv.name == name

-- The upsert; the RETURNING row is the one of that name. SQLite's sequence moves on an insert alone.
unfoldable pub ensure_server : Text → Text → Text → Db → Option Server × Db
unfolding any
ensure_server name binary bundle_dir db =
    let fresh : Server = record {
      id = pos (db.server_seq + 1);
      name = name;
      binary = binary;
      bundle_dir = bundle_dir;
    } in
    let rows =
      upsert (named_server name) (λ srv. record srv { binary = binary; bundle_dir = bundle_dir })
        fresh db.servers in
    (
      first_where (named_server name) rows,
      record db {
        servers = rows;
        server_seq =
            if any (named_server name) db.servers then db.server_seq else db.server_seq + 1;
      },
    )

-- ORDER BY name
unfoldable pub list_servers : Db → List Server
unfolding order_by
list_servers db = order_by (λ (srv : Server). srv.name) db.servers

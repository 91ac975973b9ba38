-- ===== src/Store/AuthConfigs.antt =====
-- internal/store/authconfigs.go: the OAuth registration of a vendor.
use gigmcp.Base.{
  Text, List, [], Bool, ◌==◌, comparable_text, first_where, delete_where, upsert, Option, none,
  some, Result, ok, err, join_lines, read_lines, map,
}
use gigmcp.Store.Types.{Db, AuthConfig, Error, auth_config_not_found}
use gigmcp.Store.Installs.{order_by}

abbrev pub of_config : Text → AuthConfig → Bool
of_config vendor a = a.vendor == vendor

abbrev pub stored_config : AuthConfig → AuthConfig
stored_config a = record a { default_scopes = read_lines (join_lines a.default_scopes) }

unfoldable pub put_auth_config : AuthConfig → Db → Db
put_auth_config a db = record db {
  auth_configs =
      upsert (of_config a.vendor) (λ old. stored_config a) (stored_config a) db.auth_configs;
}

abbrev pub found_config : Option AuthConfig → Result Error AuthConfig
found_config none = err auth_config_not_found
found_config (some a) = ok a

unfoldable pub get_auth_config : Text → Db → Result Error AuthConfig
get_auth_config vendor db = found_config (first_where (of_config vendor) db.auth_configs)

-- The SELECT leaves the client secret out.
abbrev pub without_secret : AuthConfig → AuthConfig
without_secret a = record a { encrypted_client_secret = [] }

unfoldable pub list_auth_configs : Db → List AuthConfig
unfolding order_by
list_auth_configs db =
    map (λ (a : AuthConfig). without_secret a)
      (order_by (λ (a : AuthConfig). a.vendor) db.auth_configs)

unfoldable pub delete_auth_config : Text → Db → Db
delete_auth_config vendor db = record db {
  auth_configs = delete_where (of_config vendor) db.auth_configs;
}

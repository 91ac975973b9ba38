-- ===== src/Api/AuthConfigs.antt =====
-- internal/api/authconfigs.go, urlvalidate.go: the OAuth registrations. net/url and net.ParseIP with
-- its tests of an address are parameters.
use gigmcp.Base.{
  Text, List, [], ◌++◌, ℕ, ◌+◌, Bool, true, false, not, ◌&&◌, ◌||◌, ◌==◌, comparable_text, nat_beq,
  leb, map, if◌then◌else◌, Option, none, some, Result, ok, err, ◌>>=◌, ◌>>◌, require, or_else, lit,
}
use gigmcp.Store.Types.{Db, AuthConfig, Error}
use gigmcp.Store.AuthConfigs.{
  put_auth_config, get_auth_config, list_auth_configs, delete_auth_config,
}
use gigmcp.Auth.Session.{Context}
use gigmcp.Api.Types.{Control, Env, Reply, failed, wrote, audit, with_db}
use gigmcp.Api.Names.{is_server_name}

pub record Url : Type 0 where
  pub scheme : Text
  pub hostname : Text

-- url.Parse, and for a host that net.ParseIP reads whether it lies in one of the ranges that are
-- refused.
pub record Net : Type 0 where
  pub parse : Text → Result Error Url
  pub parse_ip : Text → Option Bool

-- A character under the simple folding, against which "localhost" is compared; of its letters only
-- `s` has a third form, U+017F.
abbrev pub fold : ℕ → ℕ
fold c = if nat_beq c 0x17f then b's' else if leb b'A' c && leb c b'Z' then c + 32 else c

-- strings.EqualFold(host, "localhost")
unfoldable pub is_localhost : Text → Bool
is_localhost host = map (λ (c : ℕ). fold c) host == lit "localhost"

-- What follows a host that names no address, or one that is refused or not.
abbrev pub ip_allowed : Option Bool → Bool
ip_allowed none = true
ip_allowed (some refused) = not refused

unfoldable pub validate_external_https_url : Net → Text → Bool
unfolding is_localhost
validate_external_https_url net raw = elim (net.parse raw) [
  | err e ↦ false
  | ok u ↦
      u.scheme == lit "https"
      && not (u.hostname == [])
      && not (is_localhost u.hostname)
      && ip_allowed (net.parse_ip u.hostname)
]

pub record AuthConfigBody : Type 0 where
  pub authorize_url : Text
  pub token_url : Text
  pub client_id : Text
  pub client_secret : Text
  pub default_scopes : List Text
  pub pkce : Bool
  pub mode : Text

pub record AuthConfigJson : Type 0 where
  pub vendor : Text
  pub authorize_url : Text
  pub token_url : Text
  pub client_id : Text
  pub default_scopes : List Text
  pub pkce : Bool
  pub mode : Text
  pub has_secret : Bool

module _ (env : Env) (net : Net) (ctx : Option Context) where
  -- A failure to read the old row keeps no secret.
  unfoldable pub kept_secret : Text → Db → Text
  kept_secret vendor db = elim env.load_fault [
    | some e ↦ []
    | none ↦ elim (get_auth_config vendor db) [ ok cur ↦ cur.encrypted_client_secret | err e ↦ [] ]
  ]

  unfoldable pub secret_of : Text → Text → Db → Result Error Text
  unfolding kept_secret
  secret_of vendor secret db =
      if secret == [] then ok (kept_secret vendor db) else env.encrypt secret

  -- The row that the request asks for, or the status of the first check that fails.
  unfoldable pub config_of : Text → Result ℕ AuthConfigBody → Db → Result ℕ AuthConfig
  unfolding validate_external_https_url secret_of
  config_of vendor body db = do
    require (is_server_name vendor) 400
    b ← body
    require (not (b.authorize_url == [] || b.token_url == [] || b.client_id == [])) 400
    require (validate_external_https_url net b.authorize_url) 400
    require (validate_external_https_url net b.token_url) 400
    require (b.mode == lit "managed" || b.mode == lit "byo") 400
    secret ← or_else 500 (secret_of vendor b.client_secret db)
    ok (record {
      vendor = vendor;
      authorize_url = b.authorize_url;
      token_url = b.token_url;
      client_id = b.client_id;
      encrypted_client_secret = secret;
      default_scopes = b.default_scopes;
      pkce = b.pkce;
      mode = b.mode;
    })

  unfoldable pub handle_put_auth_config :
      Text → Result ℕ AuthConfigBody → Control → Reply (Unit {0}) × Control
  unfolding config_of audit
  handle_put_auth_config vendor body s = elim (config_of vendor body s.db) [
    | err status ↦ (failed status, s)
    | ok a ↦ elim env.write_fault [
      | some e ↦ (failed 500, s)
      | none ↦ (
        wrote 204 tt,
        with_db
            (audit env ctx (lit "auth_config_put") (lit "vendor=" ++ vendor) none
              (put_auth_config a s.db))
            s,
      )
    ]
  ]

  -- `has_secret` tells of the client id, since the list holds no secret.
  abbrev pub config_json : AuthConfig → AuthConfigJson
  config_json a = record {
    vendor = a.vendor;
    authorize_url = a.authorize_url;
    token_url = a.token_url;
    client_id = a.client_id;
    default_scopes = a.default_scopes;
    pkce = a.pkce;
    mode = a.mode;
    has_secret = not (a.client_id == []);
  }

  unfoldable pub handle_list_auth_configs : Control → Reply (List AuthConfigJson) × Control
  handle_list_auth_configs s = elim env.load_fault [
    | some e ↦ (failed 500, s)
    | none ↦ (wrote 200 (map (λ (a : AuthConfig). config_json a) (list_auth_configs s.db)), s)
  ]

  unfoldable pub handle_delete_auth_config : Text → Control → Reply (Unit {0}) × Control
  unfolding audit
  handle_delete_auth_config vendor s =
      if is_server_name vendor
      then (elim env.write_fault [
        | some e ↦ (failed 500, s)
        | none ↦ (
          wrote 204 tt,
          with_db
              (audit env ctx (lit "auth_config_delete") (lit "vendor=" ++ vendor) none
                (delete_auth_config vendor s.db))
              s,
        )
      ])
      else (failed 400, s)

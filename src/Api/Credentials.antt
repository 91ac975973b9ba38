-- ===== src/Api/Credentials.antt =====
-- internal/api/credentials.go: the secrets of a user.
pub mod Stored
use gigmcp.Base.{
  Text, List, [], ◌∷◌, ◌++◌, ℕ, ℤ, Bool, true, false, not, ◌&&◌, ◌||◌, ◌==◌, comparable_text, leb,
  length, contains, map, if◌then◌else◌, Option, none, some, Result, ok, err, ◌>>=◌, ◌>>◌, require,
  or_else, lit,
}
use gigmcp.Store.Types.{Db, Credential, Error, User}
use gigmcp.Store.Manifests.{
  put_credential, list_credentials_by_tenant, delete_credential, user_tenant,
}
use gigmcp.Auth.Session.{Context}
use gigmcp.Api.Types.{Control, Env, Reply, failed, wrote, effective_user, audit, with_db}
use gigmcp.Api.Names.{is_server_name, is_header_name, is_host_entry}

pub record CredentialBody : Type 0 where
  pub secret : Text
  pub inject_header : Text
  pub inject_format : Text
  pub placeholder : Text
  pub allowed_hosts : List Text

pub record CredentialJson : Type 0 where
  pub server : Text
  pub inject_header : Text
  pub inject_format : Text
  pub placeholder : Text
  pub allowed_hosts : List Text

unfoldable pub all_hosts : List Text → Bool
unfolding is_host_entry
all_hosts [] = true
all_hosts (h ∷ hosts) = is_host_entry h && all_hosts hosts

-- The fields that may be empty, each after its own rules.
unfoldable pub validate_credential_body : CredentialBody → Result ℕ (Unit {0})
unfolding is_header_name all_hosts contains
validate_credential_body b = do
  require
      (b.inject_header == [] || (leb (length b.inject_header) 64 && is_header_name b.inject_header))
      400
  require (leb (length b.allowed_hosts) 64 && all_hosts b.allowed_hosts) 400
  require
      (b.inject_format == []
        || (leb (length b.inject_format) 256 && contains b.inject_format (lit "{token}")))
      400
  require (b.placeholder == [] || (leb 8 (length b.placeholder) && leb (length b.placeholder) 256))
      400

abbrev pub user_status : Option User → Result ℕ User
user_status none = err 401
user_status (some u) = ok u

module _ (env : Env) (ctx : Option Context) where
  -- The row that the request asks for, or the status of the first check that fails.
  unfoldable pub credential_of : Text → Result ℕ CredentialBody → Result ℕ Credential
  unfolding validate_credential_body
  credential_of server body = do
    require (is_server_name server) 400
    b ← body
    require (not (b.secret == [])) 400
    validate_credential_body b
    user ← user_status (effective_user ctx)
    key ← or_else 500 (env.encrypt b.secret)
    ok (record {
      server = server;
      tenant = user_tenant user.id;
      encrypted_key = key;
      inject_header = b.inject_header;
      inject_format = b.inject_format;
      placeholder = b.placeholder;
      allowed_hosts = b.allowed_hosts;
    })

  unfoldable pub handle_put_credential :
      Text → Result ℕ CredentialBody → Control → Reply (Unit {0}) × Control
  unfolding credential_of audit
  handle_put_credential server body s = elim (credential_of server body) [
    | err status ↦ (failed status, s)
    | ok c ↦ elim env.write_fault [
      | some e ↦ (failed 500, s)
      | none ↦ (
        wrote 204 tt,
        with_db
            (audit env ctx (lit "credential_put") (lit "server=" ++ server) none
              (put_credential c s.db))
            s,
      )
    ]
  ]

  abbrev pub credential_json : Credential → CredentialJson
  credential_json c = record {
    server = c.server;
    inject_header = c.inject_header;
    inject_format = c.inject_format;
    placeholder = c.placeholder;
    allowed_hosts = c.allowed_hosts;
  }

  unfoldable pub handle_list_credentials : Control → Reply (List CredentialJson) × Control
  handle_list_credentials s = elim (effective_user ctx) [
    | none ↦ (failed 401, s)
    | some user ↦ elim env.load_fault [
      | some e ↦ (failed 500, s)
      | none ↦ (
        wrote 200 (
            map (λ (c : Credential). credential_json c)
              (list_credentials_by_tenant (user_tenant user.id) s.db)),
        s,
      )
    ]
  ]

  unfoldable pub credential_deleted : Text → Bool × Db → Db
  unfolding audit
  credential_deleted server (deleted, db) =
      audit env ctx (lit "credential_delete")
        (if deleted then lit "server=" ++ server else lit "server=" ++ server ++ lit " noop=true")
        none db

  unfoldable pub handle_delete_credential : Text → Control → Reply (Unit {0}) × Control
  unfolding credential_deleted
  handle_delete_credential server s =
      if is_server_name server
      then (elim (effective_user ctx) [
        | none ↦ (failed 401, s)
        | some user ↦ elim env.write_fault [
          | some e ↦ (failed 500, s)
          | none ↦ (
            wrote 204 tt,
            with_db
                (credential_deleted server (delete_credential server (user_tenant user.id) s.db)) s,
          )
        ]
      ])
      else (failed 400, s)

-- ===== src/Api/Connections.antt =====
-- internal/api/connections.go: the OAuth connections of a user, on top of the broker.
use gigmcp.Base.{
  Text, List, [], ◌∷◌, ◌++◌, ℕ, ◌&&◌, ◌||◌, ◌==◌, comparable_text, map, if◌then◌else◌, Option, none,
  some, Result, ok, err, lit,
}
use gigmcp.Store.Types.{Db, ManifestRecord, ConnectedAccount, Error, unix}
use gigmcp.Store.Manifests.{get_manifest, list_manifests}
use gigmcp.Store.Accounts.{list_connected_accounts_by_user, delete_connected_account}
use gigmcp.Gateway.Resolver.{vendor_of}
use gigmcp.Auth.Broker.{Broker, Callback, start_handler, callback_handler}
use gigmcp.Auth.Broker.{Reply as BrokerReply}
use gigmcp.Auth.Session.{Context}
use gigmcp.Api.Types.{Control, Env, Reply, failed, wrote, effective_user, audit, with_db}
use gigmcp.Api.Names.{is_server_name}

pub record ConnectedAccountJson : Type 0 where
  pub vendor : Text
  pub granted_scopes : List Text
  pub expires_at : ℕ

-- The scopes of one manifest's first injection, if it is of the vendor.
unfoldable pub scopes_for : Text → ManifestRecord → List Text
scopes_for vendor rec = elim rec.injections [
  | [] ↦ []
  | inj ∷ more ↦ if inj.type == lit "oauth2" && vendor_of inj == vendor then inj.scopes else []
]

unfoldable pub scopes_of_all : Text → List ManifestRecord → List Text
unfolding scopes_for
scopes_of_all vendor [] = []
scopes_of_all vendor (rec ∷ recs) = scopes_for vendor rec ++ scopes_of_all vendor recs

-- What becomes of a connection request: an error of the API, or the broker's reply.
pub data OauthReply : Type 0 where
  declined : ℕ → OauthReply
  of_broker : BrokerReply → OauthReply

module _ (env : Env) (broker : Option Broker) (ctx : Option Context) where
  unfoldable pub handle_list_connections : Control → Reply (List ConnectedAccountJson) × Control
  handle_list_connections s = elim (effective_user ctx) [
    | none ↦ (failed 401, s)
    | some user ↦ elim env.load_fault [
      | some e ↦ (failed 500, s)
      | none ↦ (
        wrote 200 (
            map
              (λ (a : ConnectedAccount). record {
                vendor = a.vendor;
                granted_scopes = a.granted_scopes;
                expires_at = unix a.expires_at;
              })
              (list_connected_accounts_by_user user.id s.db)),
        s,
      )
    ]
  ]

  -- A manifest that cannot be read gives no scopes.
  unfoldable pub required_scopes_for_vendor : Text → Text → Db → List Text
  unfolding scopes_of_all
  required_scopes_for_vendor vendor server db =
      (if server == [] then [] else (elim env.load_fault [
        | some e ↦ []
        | none ↦ elim (get_manifest server db) [ ok rec ↦ scopes_for vendor rec | err e ↦ [] ]
      ]))
      ++ (elim env.read_fault [ some e ↦ [] | none ↦ scopes_of_all vendor (list_manifests db) ])

  abbrev pub return_to : Text → Text
  return_to server = if server == [] then lit "/connected-accounts" else lit "/servers/" ++ server

  unfoldable pub handle_oauth_start :
      Text → Text → Result Error Text → Text → Control → OauthReply × Control
  unfolding required_scopes_for_vendor audit
  handle_oauth_start vendor server entropy pkce s = elim broker [
    | none ↦ (declined 501, s)
    | some b ↦ elim (effective_user ctx) [
      | none ↦ (declined 401, s)
      | some user ↦
          if is_server_name vendor && (server == [] || is_server_name server)
          then (let db =
                audit env ctx (lit "oauth_connect_start") (lit "vendor=" ++ vendor) none s.db in
              (
                of_broker (
                    start_handler b env.now user.id vendor
                      (required_scopes_for_vendor vendor server s.db) (return_to server) entropy
                      pkce db),
                with_db db s,
              ))
          else (declined 400, s)
    ]
  ]

  unfoldable pub handle_oauth_callback : Callback → Control → OauthReply × Control
  handle_oauth_callback q s = elim broker [
    | none ↦ (declined 501, s)
    | some b ↦ let done = callback_handler b env.now q s.db in (of_broker done.0, with_db done.1 s)
  ]

  unfoldable pub handle_disconnect : Text → Control → Reply (Unit {0}) × Control
  unfolding audit
  handle_disconnect vendor s = elim (effective_user ctx) [
    | none ↦ (failed 401, s)
    | some user ↦
        if is_server_name vendor
        then (elim env.write_fault [
          | some e ↦ (failed 500, s)
          | none ↦ (
            wrote 204 tt,
            with_db
                (audit env ctx (lit "oauth_disconnect") (lit "vendor=" ++ vendor) none
                  (delete_connected_account user.id vendor s.db))
                s,
          )
        ])
        else (failed 400, s)
  ]

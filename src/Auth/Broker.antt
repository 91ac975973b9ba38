-- ===== src/Auth/Broker.antt =====
-- internal/auth/oauthbroker.go: the OAuth broker. The vault, the requests to the vendor and the
-- codec of the flow cookie are parameters, and each call of the store may fail. A token without
-- an expiry stands at time 0, which every clock has passed.
pub mod Freshness
pub mod Connect
pub mod Completion
use gigmcp.Base.{
  Text, List, [], ◌∷◌, ℕ, ◌+◌, ◌*◌, ℤ, pos, Bool, not, ltb, ◌==◌, comparable_text, if◌then◌else◌,
  Option, none, some, Result, ok, err, ◌>>=◌, ◌>>◌, require, or_else, unless_fault, lit,
}
use gigmcp.Store.Types.{
  Db, AuthConfig, ConnectedAccount, Error, auth_config_not_found, second, unix,
}
use gigmcp.Store.AuthConfigs.{get_auth_config}
use gigmcp.Store.Accounts.{
  get_connected_account, put_connected_account, update_connected_account_tokens,
}
use gigmcp.Auth.Flow.{Codec, sign_flow, verify_flow}
use gigmcp.Auth.Scopes.{union_scopes, fields}

-- oauthFlowState
pub record FlowState : Type 0 where
  pub state : Text
  pub verifier : Text
  pub vendor : Text
  pub user_id : ℤ
  pub return_to : Text
  pub scopes : List Text
  pub expires : ℤ

-- oauth2.Config and oauth2.Token of golang.org/x/oauth2, as far as the broker uses them
pub record OauthConfig : Type 0 where
  pub client_id : Text
  pub client_secret : Text
  pub auth_url : Text
  pub token_url : Text
  pub redirect_url : Text
  pub scopes : List Text

pub record Token : Type 0 where
  pub access : Text
  pub refresh : Text
  pub expiry : ℕ
  -- Extra("scope"), if it is a string
  pub scope : Option Text

-- The broker's fields, the requests of its client, and the failures of the store's calls.
pub record Broker : Type 0 where
  pub codec : Codec FlowState
  pub redirect : Text
  pub encrypt : Text → Result Error Text
  pub decrypt : Text → Result Error Text
  pub exchange : OauthConfig → Text → Text → Result Error Token
  pub refresh_grant : OauthConfig → Text → Result Error Token
  pub auth_code_url : OauthConfig → Text → Text → Text
  pub config_fault : Option Error
  pub account_fault : Option Error
  pub write_fault : Option Error

pub record FlowCookie : Type 0 where
  pub value : Text
  -- 0 clears the cookie
  pub max_age : ℕ

pub data Reply : Type 0 where
  -- writeAuthError with this status
  refused : ℕ → Reply
  -- http.Redirect with the flow cookie that goes with it
  redirected : Text → FlowCookie → Reply

-- The request to the callback.
pub record Callback : Type 0 where
  pub cookie : Option Text
  pub error : Text
  pub state : Text
  pub code : Text

abbrev pub cookie_value : Option Text → Result ℕ Text
cookie_value none = err 400
cookie_value (some v) = ok v

abbrev pub config_status {ℓ} : {A : Type ℓ} → Result Error A → Result ℕ A
config_status (ok a) = ok a
config_status (err auth_config_not_found) = err 404
config_status (err e) = err 500

-- What the provider returned as its scopes, or else the ones requested.
unfoldable pub granted_of : List Text → Option Text → List Text
unfolding union_scopes
granted_of requested none = requested
granted_of requested (some s) = if s == [] then requested else union_scopes (fields s ∷ [])

abbrev pub flow_ttl : ℕ
flow_ttl = 600 * second

abbrev pub flow_of : ℕ → ℤ → Text → Text → List Text → Text → Text → FlowState
flow_of now user vendor return_to scopes state pkce = record {
  state = state;
  verifier = pkce;
  vendor = vendor;
  user_id = user;
  return_to = return_to;
  scopes = scopes;
  expires = pos (unix (now + flow_ttl));
}

abbrev pub account_of : FlowState → Token → Text → Text → ConnectedAccount
account_of fs tok refresh access = record {
  user_id = fs.user_id;
  vendor = fs.vendor;
  encrypted_refresh_token = refresh;
  encrypted_access_token = access;
  expires_at = tok.expiry;
  granted_scopes = granted_of fs.scopes tok.scope;
}

abbrev pub landing : Text → Text
landing return_to = if return_to == [] then lit "/" else return_to

abbrev pub refresh_skew : ℕ
refresh_skew = 60 * second

-- b.now().Add(refreshSkew).Before(acct.ExpiresAt)
unfoldable pub is_fresh : ℕ → ConnectedAccount → Bool
is_fresh now acct = ltb (now + refresh_skew) acct.expires_at

module _ (b : Broker) where
  unfoldable pub client_secret_of : AuthConfig → Result Error Text
  client_secret_of ac =
      if ac.encrypted_client_secret == [] then ok [] else b.decrypt ac.encrypted_client_secret

  unfoldable pub oauth_config_for : AuthConfig → List Text → Result Error OauthConfig
  unfolding client_secret_of
  oauth_config_for ac scopes = do
    secret ← client_secret_of ac
    ok (record {
      client_id = ac.client_id;
      client_secret = secret;
      auth_url = ac.authorize_url;
      token_url = ac.token_url;
      redirect_url = b.redirect;
      scopes = scopes;
    })

  unfoldable pub load_config : Text → Db → Result Error AuthConfig
  load_config vendor db = unless_fault b.config_fault (get_auth_config vendor db)

  unfoldable pub load_account : ℤ → Text → Db → Result Error ConnectedAccount
  load_account user vendor db = unless_fault b.account_fault (get_connected_account user vendor db)

  -- The refresh-token grant of an account.
  unfoldable pub granted_token : Text → Db → ConnectedAccount → Result Error Token
  unfolding load_config oauth_config_for
  granted_token vendor db acct = do
    ac ← load_config vendor db
    conf ← oauth_config_for ac acct.granted_scopes
    refresh ← b.decrypt acct.encrypted_refresh_token
    b.refresh_grant conf refresh

  -- A failure to write the new token is logged only.
  unfoldable pub persisted : ℤ → Text → Text → ℕ → Db → Db
  persisted user vendor access expiry db = elim b.write_fault [
    | some e ↦ db
    | none ↦ (update_connected_account_tokens user vendor access expiry db).1
  ]

  unfoldable pub stored_token : ℤ → Text → Db → Token → Result Error Text × Db
  unfolding persisted
  stored_token user vendor db tok = elim (b.encrypt tok.access) [
    | err e ↦ (err e, db)
    | ok box ↦ (ok tok.access, persisted user vendor box tok.expiry db)
  ]

  unfoldable pub renewed : ℤ → Text → Db → ConnectedAccount → Result Error Text × Db
  unfolding granted_token stored_token
  renewed user vendor db acct = elim (granted_token vendor db acct) [
    | err e ↦ (err e, db)
    | ok tok ↦ stored_token user vendor db tok
  ]

  unfoldable pub refresh_and_persist : ℕ → ℤ → Text → Db → Result Error Text × Db
  unfolding load_account is_fresh renewed
  refresh_and_persist now user vendor db = elim (load_account user vendor db) [
    | err e ↦ (err e, db)
    | ok acct ↦
        if is_fresh now acct
        then (b.decrypt acct.encrypted_access_token, db)
        else renewed user vendor db acct
  ]

  -- `seen` is the store at the first read, at time `now`; the store is `db`, at time `later`, when
  -- the call has its turn in the group. `flight` is the answer of another call of the same key
  -- that was running then, which the group shares.
  unfoldable pub ensure_fresh_token :
      (now later : ℕ)
      → Option (Result Error Text)
      → ℤ
      → Text
      → (seen db : Db) → Result Error Text × Db
  unfolding load_account is_fresh refresh_and_persist
  ensure_fresh_token now later flight user vendor seen db = elim (load_account user vendor seen) [
    | err e ↦ (err e, db)
    | ok acct ↦
        if is_fresh now acct then (b.decrypt acct.encrypted_access_token, db) else (elim flight [
          | some answer ↦ (answer, db)
          | none ↦ refresh_and_persist later user vendor db
        ])
  ]

  -- StartHandler up to the cookie; randB64 and GenerateVerifier give `entropy` and `pkce`.
  unfoldable pub started :
      ℕ
      → ℤ
      → Text
      → List Text
      → Text
      → Result Error Text
      → Text
      → Db
      → Result ℕ (Text × OauthConfig × Text)
  unfolding load_config oauth_config_for
  started now user vendor required return_to entropy pkce db = do
    require (not (vendor == [])) 400
    ac ← config_status (load_config vendor db)
    let scopes = union_scopes (ac.default_scopes ∷ required ∷ [])
    conf ← or_else 500 (oauth_config_for ac scopes)
    state ← or_else 500 entropy
    signed ← or_else 500 (sign_flow b.codec (flow_of now user vendor return_to scopes state pkce))
    ok (state, conf, signed)

  unfoldable pub start_handler :
      ℕ → ℤ → Text → List Text → Text → Result Error Text → Text → Db → Reply
  unfolding started
  start_handler now user vendor required return_to entropy pkce db =
      elim (started now user vendor required return_to entropy pkce db) [
        | err status ↦ refused status
        | ok (state, conf, signed) ↦
            redirected (b.auth_code_url conf state pkce) (record { value = signed; max_age = 600 })
      ]

  -- The account that the callback stores, or the status of the first check that fails.
  unfoldable pub connected_account : ℕ → Callback → Db → Result ℕ (FlowState × ConnectedAccount)
  unfolding load_config oauth_config_for
  connected_account now q db = do
    value ← cookie_value q.cookie
    fs ← or_else 400 (verify_flow b.codec now value)
    require (q.error == []) 401
    require (q.state == fs.state) 400
    ac ← or_else 500 (load_config fs.vendor db)
    conf ← or_else 500 (oauth_config_for ac fs.scopes)
    tok ← or_else 502 (b.exchange conf q.code fs.verifier)
    require (not (tok.refresh == [])) 502
    refresh ← or_else 500 (b.encrypt tok.refresh)
    access ← or_else 500 (b.encrypt tok.access)
    ok (fs, account_of fs tok refresh access)

  unfoldable pub callback_handler : ℕ → Callback → Db → Reply × Db
  unfolding connected_account
  callback_handler now q db = elim (connected_account now q db) [
    | err status ↦ (refused status, db)
    | ok (fs, acct) ↦ elim b.write_fault [
      | some e ↦ (refused 500, db)
      | none ↦ (
        redirected (landing fs.return_to) (record { value = []; max_age = 0 }),
        put_connected_account acct db,
      )
    ]
  ]

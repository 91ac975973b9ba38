-- ===== src/Auth/Oidc.antt =====
-- internal/auth/oidc.go: login at the identity provider, and logout. The provider's client, the
-- verifier of ID tokens, the hash and the random source are parameters, and calls of the store may
-- fail.
pub mod Login
pub mod Entry
use gigmcp.Base.{
  Text, List, [], ◌∷◌, ℕ, ◌+◌, ◌*◌, ℤ, pos, Bool, true, false, ◌==◌, comparable_text, any,
  if◌then◌else◌, Option, none, some, Result, ok, err, ◌>>=◌, ◌>>◌, require, or_else, attempt, lit,
}
use gigmcp.Store.Types.{Db, User, Session, AuditEvent, AuditKind, auth, Error, second, unix}
use gigmcp.Store.Sessions.{
  upsert_user_by_oidc, create_session, get_session, delete_session, is_role,
}
use gigmcp.Store.Audit.{append_audit}
use gigmcp.Auth.Flow.{Codec, sign_flow, verify_flow}

-- flowState
pub record LoginFlow : Type 0 where
  pub state : Text
  pub nonce : Text
  pub verifier : Text
  pub expires : ℤ

-- oidc.IDToken with its claims; `roles` are the keys of the claim's map
pub record IdToken : Type 0 where
  pub issuer : Text
  pub subject : Text
  pub nonce : Text

pub record Claims : Type 0 where
  pub email : Text
  pub name : Text
  pub roles : List Text

-- The fields, the provider's answers, and the failures of the store's calls. `exchange` gives
-- Extra("id_token"), if it is a string.
pub record Authenticator : Type 0 where
  pub codec : Codec LoginFlow
  pub admin_role : Text
  pub session_ttl : ℕ
  pub end_session_endpoint : Text
  pub exchange : Text → Text → Result Error (Option Text)
  pub verify_id : Text → Result Error IdToken
  pub claims_of : Text → Result Error Claims
  pub auth_code_url : Text → Text → Text → Bool → Text
  -- the logout address for an ID token, unless the endpoint does not parse
  pub logout_url : Text → Option Text
  pub hash_token : Text → Text
  pub user_fault : Option Error
  pub session_fault : Option Error
  pub audit_fault : Option Error

pub record LoginCallback : Type 0 where
  pub cookie : Option Text
  pub error : Text
  pub state : Text
  pub code : Text

-- A login sets the session cookie and the cookie with the ID token.
pub data LoginReply : Type 0 where
  refused : ℕ → LoginReply
  -- to the provider, with the flow cookie
  sent : (address flow : Text) → LoginReply
  logged_in : (session id_token : Text) → LoginReply

pub data LogoutReply : Type 0 where
  -- 204
  done : LogoutReply
  -- 200 with the provider's logout address
  elsewhere : Text → LogoutReply

unfoldable pub map_role : List Text → Text → Text
unfolding any
map_role roles admin_role = if any (λ r. r == admin_role) roles then lit "admin" else lit "user"

abbrev pub id_token_of : Option Text → Result ℕ Text
id_token_of none = err 502
id_token_of (some raw) = ok raw

abbrev pub login_cookie : Option Text → Result ℕ Text
login_cookie none = err 400
login_cookie (some v) = ok v

abbrev pub auth_event : ℤ → Text → Text → AuditEvent
auth_event user decision detail = record {
  id = 0;
  ts = none;
  kind = auth;
  user_id = some user;
  profile_id = none;
  server = [];
  host = [];
  decision = decision;
  detail = detail;
}

module _ (a : Authenticator) where
  -- A failure to write the audit row is logged only.
  unfoldable pub noted : ℕ → AuditEvent → Db → Db
  noted now e db = elim a.audit_fault [ some f ↦ db | none ↦ append_audit now e db ]

  unfoldable pub begun :
      ℕ → Result Error Text → Result Error Text → Text → Text → Result ℕ (Text × Text)
  begun now entropy entropy' pkce prompt = do
    state ← or_else 500 entropy
    nonce ← or_else 500 entropy'
    signed ← or_else 500 (
        sign_flow a.codec (record {
          state = state;
          nonce = nonce;
          verifier = pkce;
          expires = pos (unix (now + 600 * second));
        }))
    ok (a.auth_code_url state nonce pkce (prompt == lit "create"), signed)

  -- randB64, twice, and GenerateVerifier give `entropy`, `entropy'` and `pkce`.
  unfoldable pub login_handler :
      ℕ → Result Error Text → Result Error Text → Text → Text → LoginReply
  unfolding begun
  login_handler now entropy entropy' pkce prompt = elim (begun now entropy entropy' pkce prompt) [
    | err status ↦ refused status
    | ok (address, signed) ↦ sent address signed
  ]

  -- What the callback has shown of the user before it writes.
  unfoldable pub identified : ℕ → LoginCallback → Result ℕ (Text × IdToken × Claims)
  unfolding map_role
  identified now q = do
    value ← login_cookie q.cookie
    fs ← or_else 400 (verify_flow a.codec now value)
    require (q.error == []) 401
    require (q.state == fs.state) 400
    answer ← or_else 502 (a.exchange q.code fs.verifier)
    raw ← id_token_of answer
    idt ← or_else 401 (a.verify_id raw)
    require (idt.nonce == fs.nonce) 401
    claims ← or_else 502 (a.claims_of raw)
    require (is_role (map_role claims.roles a.admin_role)) 500
    ok (raw, idt, claims)

  unfoldable pub greeted : ℕ → Text → Text → User → Result Error (Unit {0}) → Db → LoginReply × Db
  unfolding noted
  greeted now token raw user (err e) db = (refused 500, db)
  greeted now token raw user (ok _) db =
      (logged_in token raw, noted now (auth_event user.id (lit "login") user.email) db)

  -- The session of a user who was provisioned; NewSessionToken gives `entropy`.
  unfoldable pub opened : ℕ → Result Error Text → Text → Result Error User → Db → LoginReply × Db
  unfolding greeted
  opened now entropy raw (err e) db = (refused 500, db)
  opened now (err e) raw (ok user) db = (refused 500, db)
  opened now (ok token) raw (ok user) db =
      let made =
        attempt a.session_fault
          (create_session now (a.hash_token token) user.id (now + a.session_ttl)) db in
      greeted now token raw user made.0 made.1

  unfoldable pub login_callback : ℕ → Result Error Text → LoginCallback → Db → LoginReply × Db
  unfolding identified map_role opened
  login_callback now entropy q db = elim (identified now q) [
    | err status ↦ (refused status, db)
    | ok (raw, idt, claims) ↦
        let made =
          attempt a.user_fault
            (upsert_user_by_oidc now idt.issuer idt.subject claims.email claims.name
              (map_role claims.roles a.admin_role))
            db in
        opened now entropy raw made.0 made.1
  ]

  -- The row of a logout, if the session is there.
  unfoldable pub left : ℕ → Result Error Session → Db → Db
  unfolding noted
  left now (err e) db = db
  left now (ok sess) db = noted now (auth_event sess.user_id (lit "logout") []) db

  unfoldable pub forgotten : ℕ → Text → Db → Db
  unfolding left
  forgotten now hash db =
      let read = get_session now hash db in
      let after = left now read.0 read.1 in
      elim a.session_fault [ some e ↦ after | none ↦ delete_session hash after ]

  unfoldable pub logout_address : Option Text → LogoutReply
  logout_address none = done
  logout_address (some id_token) =
      if a.end_session_endpoint == []
      then done
      else if id_token == []
      then done
      else (elim (a.logout_url id_token) [ none ↦ done | some url ↦ elsewhere url ])

  unfoldable pub logout_handler : ℕ → Option Text → Option Text → Db → LogoutReply × Db
  unfolding forgotten logout_address
  logout_handler now session id_token db = (
    logout_address id_token,
    elim session [
      | none ↦ db
      | some value ↦ if value == [] then db else forgotten now (a.hash_token value) db
    ],
  )

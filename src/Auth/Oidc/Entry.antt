-- ===== src/Auth/Oidc/Entry.antt =====
-- A login that succeeds: of whom it is, and what the session that it opens lets through.
use gigmcp.Base.{
  Text, List, [], ℕ, ◌+◌, ◌≤◌, true, false, ◌==◌, comparable_text, comparable_int, lit, any,
  first_where, Option, none, some, Result, Result-cases, ok, err, >>=-eq-ok, require-eq-ok,
  or_else->>=, ◌≡◌, ◌≢◌, ◌↔◌, inl, inr, refl, ap, ◌∙◌, subst, arith, Has, text_beq_iff,
  Option-cases, Bool-cases,
}
use gigmcp.Store.Types.{Db, User, Error, from_unix, unix}
use gigmcp.Store.Sessions.{
  upsert_user_by_oidc, with_subject, scanned, create_session, get_session, get_user, is_role,
}
use gigmcp.Auth.Flow.{is_past, verify_flow}
use gigmcp.Auth.Flow.Signing.{IsUnforged, IsInvertible, verify_flow-issued}
use gigmcp.Auth.Session.{Request, passed, as_self, session_middleware}
use gigmcp.Auth.Oidc.{
  Authenticator, LoginFlow, IdToken, Claims, LoginCallback, logged_in, map_role, id_token_of,
  login_cookie, auth_event, noted, identified, greeted, opened, login_callback,
}
use gigmcp.Auth.Oidc.Login.{
  IsNumbered, IsProvisioned, provisioned, session_row, create_session-reads, create_session-users,
  upsert-users, noted-sessions, noted-users, reads_alike, middleware_self,
}

map_role_iff :
    (roles : List Text) (admin_role role : Text)
    → role ≡ map_role roles admin_role
    → (role ≡ lit "admin") ↔ (any (λ r. r == admin_role) roles ≡ true)
unfolding map_role
map_role_iff roles admin_role role e = elim (Bool-cases (any (λ r. r == admin_role) roles)) [
  | inl y ↦ (λ h. y, λ h. ground (arith, y))
  | inr n ↦ (λ h. ground (arith, n), λ h. ground arith)
]

module _ (a : Authenticator) (issued : List LoginFlow) (now : ℕ) (q : LoginCallback) where
  -- What the provider said of the one who logs in, in a flow that this process began.
  pub record IsIdentified (raw : Text) (idt : IdToken) (claims : Claims) : Type 0 where
    pub fs : LoginFlow
    pub begun : Has (λ (gs : LoginFlow). gs ≡ fs) issued
    pub timely : is_past (a.codec.expires fs) now ≡ false
    pub accepted : q.error ≡ []
    pub matched : q.state ≡ fs.state
    pub exchanged : a.exchange q.code fs.verifier ≡ ok (some raw)
    pub verified : a.verify_id raw ≡ ok idt
    pub fresh : idt.nonce ≡ fs.nonce
    pub claimed : a.claims_of raw ≡ ok claims

  cookie_of : (cookie : Option Text) (v : Text) → login_cookie cookie ≡ ok v → cookie ≡ some v
  cookie_of none v h = cc
  cookie_of (some w) v h = cc

  raw_of : (answer : Option Text) (raw : Text) → id_token_of answer ≡ ok raw → answer ≡ some raw
  raw_of none raw h = cc
  raw_of (some w) raw h = cc

  triple_of :
      (raw made : Text) (idt given : IdToken) (claims said : Claims)
      → ◌≡◌ {A = Result ℕ (Text × IdToken × Claims)}
          (ok (made, given, said))
          (ok (raw, idt, claims))
      → (made ≡ raw) × (given ≡ idt) × (said ≡ claims)
  triple_of raw made idt given claims said h = (cc, cc, cc)

  identified-IsIdentified :
      (raw : Text) (idt : IdToken) (claims : Claims)
      → IsInvertible a.codec issued
      → ((v : Text) → q.cookie ≡ some v → IsUnforged a.codec issued v)
      → identified a now q ≡ ok (raw, idt, claims)
      → IsIdentified raw idt claims
  unfolding identified
  identified-IsIdentified raw idt claims inv unforged h =
      let (v, cookie, h1) = >>=-eq-ok (login_cookie q.cookie) _ h in
      let (fs, signed, h2) = or_else->>= 400 (verify_flow a.codec now v) _ h1 in
      let (calm, h3) = require-eq-ok (q.error == []) 401 _ h2 in
      let (state, h4) = require-eq-ok (q.state == fs.state) 400 _ h3 in
      let (answer, exchanged, h5) = or_else->>= 502 (a.exchange q.code fs.verifier) _ h4 in
      let (made, text, h6) = >>=-eq-ok (id_token_of answer) _ h5 in
      let (given, verified, h7) = or_else->>= 401 (a.verify_id made) _ h6 in
      let (nonce, h8) = require-eq-ok (given.nonce == fs.nonce) 401 _ h7 in
      let (said, claimed, h9) = or_else->>= 502 (a.claims_of made) _ h8 in
      let (role, h10) = require-eq-ok (is_role (map_role said.roles a.admin_role)) 500 _ h9 in
      let (r, i, c) = triple_of raw made idt given claims said h10 in
      let (begun, timely) =
        verify_flow-issued a.codec issued now v fs inv (unforged v (cookie_of q.cookie v cookie))
          signed in
      subst (λ (x : Text). IsIdentified x idt claims) r
        (subst (λ (x : IdToken). IsIdentified made x claims) i
          (subst (λ (x : Claims). IsIdentified made given x) c
            (record {
              fs = fs;
              begun = begun;
              timely = timely;
              accepted = (text_beq_iff q.error []).0 calm;
              matched = (text_beq_iff q.state fs.state).0 state;
              exchanged = exchanged ∙ ap ok (raw_of answer made text);
              verified = verified;
              fresh = (text_beq_iff given.nonce fs.nonce).0 nonce;
              claimed = claimed;
            })))

  module _ (token : Text) (db after : Db) where
    -- The user of a login, and what its session lets through.
    pub record IsLoggedIn (idt : IdToken) (claims : Claims) : Type 0 where
      pub user : User
      pub issuer_is : user.issuer ≡ idt.issuer
      pub subject_is : user.subject ≡ idt.subject
      pub role_is : (user.role ≡ lit "admin") ↔ (any (λ r. r == a.admin_role) claims.roles ≡ true)
      pub lets :
          (t : ℕ) (r : Request)
          → r.cookie ≡ some token
          → t ≤ from_unix (unix (now + a.session_ttl))
          → session_middleware a.hash_token
              (λ h. (get_session t h after).0)
              (λ id. get_user id after)
              t
              r
            ≡ passed (as_self (a.hash_token token) user)

    greeted-IsLoggedIn :
        (idt : IdToken) (claims : Claims) (user : User) (mid : Db) (made : Unit {0})
        → token ≢ []
        → IsProvisioned now idt.issuer idt.subject claims.email claims.name
            (map_role claims.roles a.admin_role)
            db
            user
        → mid.users
          ≡ with_subject now idt.issuer idt.subject claims.email claims.name
              (map_role claims.roles a.admin_role)
              db
        → (create_session now (a.hash_token token) user.id (now + a.session_ttl) mid).0 ≡ ok made
        → noted a now
            (auth_event user.id (lit "login") user.email)
            (create_session now (a.hash_token token) user.id (now + a.session_ttl) mid).1
          ≡ after
        → IsLoggedIn idt claims
    greeted-IsLoggedIn idt claims user mid made full prov users created written =
        let hash = a.hash_token token in
        let stored = (create_session now hash user.id (now + a.session_ttl) mid).1 in
        let event = auth_event user.id (lit "login") user.email in
        let kept : after.sessions ≡ stored.sessions =
          rw (← written) (noted-sessions a now event stored) in
        let known : after.users
            ≡ with_subject now idt.issuer idt.subject claims.email claims.name
                (map_role claims.roles a.admin_role) db =
          rw (← written) (noted-users a now event stored)
          ∙ create_session-users now hash user.id (now + a.session_ttl) mid
          ∙ users in
        record {
          user = user;
          issuer_is = prov.issuer_is;
          subject_is = prov.subject_is;
          role_is = map_role_iff claims.roles a.admin_role user.role prov.role_is;
          lets = λ t r cookie early.
              middleware_self a.hash_token (λ h. (get_session t h after).0)
                (λ id. get_user id after) t r token
                (session_row now hash user.id (now + a.session_ttl)) user full cookie
                (reads_alike t hash stored after kept
                  ∙ create_session-reads now hash user.id (now + a.session_ttl) mid made t created
                      early)
                refl
                (unfold get_user in
                  ap
                    (λ (rows : List User).
                      scanned (first_where (λ (v : User). v.id == user.id) rows))
                    known
                  ∙ ap scanned prov.found);
        }

    made_session :
        (raw raw' s : Text) (user : User) (mid : Db) (idt : IdToken) (claims : Claims)
        → token ≢ []
        → IsProvisioned now idt.issuer idt.subject claims.email claims.name
            (map_role claims.roles a.admin_role)
            db
            user
        → mid.users
          ≡ with_subject now idt.issuer idt.subject claims.email claims.name
              (map_role claims.roles a.admin_role)
              db
        → opened a now (ok token) raw' (ok user) mid ≡ (logged_in s raw, after)
        → (s ≡ token) × (raw' ≡ raw) × IsLoggedIn idt claims
    unfolding opened greeted
    made_session raw raw' s user mid idt claims full prov users h =
        elim (Option-cases a.session_fault) [
          | inr (e, faulty) ↦ ground (arith, faulty)
          | inl fine ↦
              elim (Result-cases
                (create_session now (a.hash_token token) user.id (now + a.session_ttl) mid).0) [
                  | inr (e, failed) ↦ ground (arith, fine, failed)
                  | inl (made, created) ↦ (
                    ground (arith, fine, created),
                    ground (arith, fine, created),
                    greeted-IsLoggedIn idt claims user mid made full prov users created
                        (ground (arith, fine, created)),
                  )
                ]
        ]

    provisioned_session :
        (raw raw' s : Text) (idt : IdToken) (claims : Claims) (r : Result Error User) (mid : Db)
        → token ≢ []
        → IsNumbered db
        → (r, mid)
          ≡ upsert_user_by_oidc now idt.issuer idt.subject claims.email claims.name
              (map_role claims.roles a.admin_role)
              db
        → opened a now (ok token) raw' r mid ≡ (logged_in s raw, after)
        → (s ≡ token) × (raw' ≡ raw) × IsLoggedIn idt claims
    unfolding opened
    provisioned_session raw raw' s idt claims (err e) mid full numbered made h = ground arith
    provisioned_session raw raw' s idt claims (ok user) mid full numbered made h =
        let role = map_role claims.roles a.admin_role in
        let (row, users) =
          upsert-users now idt.issuer idt.subject claims.email claims.name role db user
            (rw (← made) refl) in
        made_session raw raw' s user mid idt claims full
          (provisioned now idt.issuer idt.subject claims.email claims.name role db user numbered
            row)
          (ap (λ (x : Result Error User × Db). x.1.users) made ∙ users) h

    -- Where user ids are unique and at most the sequence and the HMAC is not forged, a callback
    -- that logs in did so in a flow that this process began and that has not expired, after the
    -- provider sent the state of that flow and an ID token that verifies and bears its nonce. The
    -- session is that of the user with the issuer and subject of the token, whose role is admin
    -- exactly if the claim holds the admin role; and until it expires every request with its cookie
    -- passes the session middleware as that user.
    pub login_callback-IsLoggedIn :
        (raw s : Text)
        → IsInvertible a.codec issued
        → ((v : Text) → q.cookie ≡ some v → IsUnforged a.codec issued v)
        → IsNumbered db
        → token ≢ []
        → login_callback a now (ok token) q db ≡ (logged_in s raw, after)
        → (s ≡ token)
          × ((idt : IdToken) × (claims : Claims) × IsIdentified raw idt claims
              × IsLoggedIn idt claims)
    unfolding login_callback
    login_callback-IsLoggedIn raw s inv unforged numbered full h =
        elim (Result-cases (identified a now q)) [
          | inr (status, bad) ↦ ground (arith, bad)
          | inl ((raw', idt, claims), known) ↦ elim (Option-cases a.user_fault) [
            | inr (e, faulty) ↦ ground (arith, known, faulty)
            | inl fine ↦
                let made =
                  upsert_user_by_oidc now idt.issuer idt.subject claims.email claims.name
                    (map_role claims.roles a.admin_role) db in
                let (session, same, entry) =
                  provisioned_session raw raw' s idt claims made.0 made.1 full numbered refl
                    (ground (arith, known, fine)) in
                (
                  session,
                  (
                    idt,
                    claims,
                    subst (λ (x : Text). IsIdentified x idt claims) same
                        (identified-IsIdentified raw' idt claims inv unforged known),
                    entry,
                  ),
                )
          ]
        ]

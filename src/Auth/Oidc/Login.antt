-- ===== src/Auth/Oidc/Login.antt =====
-- What a login writes: the row of its user, and a session that the middleware accepts.
use gigmcp.Base.{
  Text, [], ◌∷◌, ℕ, ◌+◌, ◌≤◌, ℤ, pos, true, ◌==◌, comparable_text, comparable_int, any, first_where,
  delete_where, Option, none, some, Result, ok, ltb, ◌≡◌, ◌≢◌, inl, inr, refl, ◌∙◌, sym, arith, All,
  All-map, text_beq_iff, Bool-cases, Option-cases, IsKeyedBy, upsert-IsKeyedBy, first_where-key,
  first_where-append_new, first_where_holds, first_where-upsert_self,
}
use gigmcp.Store.Types.{Db, User, Session, Error, AuditEvent, from_unix, unix}
use gigmcp.Store.Sessions.{
  upsert_user_by_oidc, with_subject, refreshed, fresh_user, same_subject, scanned, create_session,
  get_session, is_role,
}
use gigmcp.Store.Audit.{append_audit}
use gigmcp.Auth.Session.{
  Request, passed, guarded, as_self, viewed, with_user, with_session, session_middleware,
}
use gigmcp.Auth.Oidc.{Authenticator, noted}

-- AUTOINCREMENT's keys.
pub record IsNumbered (db : Db) : Type 0 where
  pub keyed : IsKeyedBy (λ (u : User). u.id) db.users
  pub below : All (λ (u : User). (k : ℕ) × (u.id ≡ pos k) × (k ≤ db.user_seq)) db.users

module _ (now : ℕ) (issuer subject email name role : Text) (db : Db) where
  same_subject_self :
      (u : User) → u.issuer ≡ issuer → u.subject ≡ subject → same_subject issuer subject u ≡ true
  same_subject_self u i s =
      ground (arith, text_beq_iff u.issuer issuer, text_beq_iff u.subject subject)

  subject_of :
      (u : User)
      → same_subject issuer subject u ≡ true
      → (u.issuer ≡ issuer) × (u.subject ≡ subject)
  subject_of u h = ground (arith, text_beq_iff u.issuer issuer, text_beq_iff u.subject subject)

  refreshed_same :
      (u : User)
      → same_subject issuer subject u ≡ true
      → same_subject issuer subject (refreshed now email name role u) ≡ true
  refreshed_same u h = h

  -- The row that an upsert of a subject leaves is of that subject and role, and is found by its id.
  pub record IsProvisioned (u : User) : Type 0 where
    pub issuer_is : u.issuer ≡ issuer
    pub subject_is : u.subject ≡ subject
    pub role_is : u.role ≡ role
    pub found :
        first_where
          (λ (v : User). v.id == u.id)
          (with_subject now issuer subject email name role db)
        ≡ some u

  pub provisioned :
      (u : User)
      → IsNumbered db
      → first_where
          (same_subject issuer subject)
          (with_subject now issuer subject email name role db)
        ≡ some u
      → IsProvisioned u
  provisioned u numbered e = record {
    issuer_is = (subject_of u hit).0;
    subject_is = (subject_of u hit).1;
    role_is = role_of (first_where (same_subject issuer subject) db.users) (
        sym e
        ∙ first_where-upsert_self (same_subject issuer subject) (refreshed now email name role)
            (fresh_user now issuer subject email name role db.user_seq) db.users
            (same_subject_self (fresh_user now issuer subject email name role db.user_seq) refl
              refl)
            refreshed_same);
    found =
        first_where-key (λ (v : User). v.id) (same_subject issuer subject)
          (with_subject now issuer subject email name role db) u
          (upsert-IsKeyedBy (λ (v : User). v.id) (same_subject issuer subject)
            (refreshed now email name role)
            (fresh_user now issuer subject email name role db.user_seq) db.users (λ v. refl)
            (All-map (λ (v : User). (k : ℕ) × (v.id ≡ pos k) × (k ≤ db.user_seq))
              (λ (v : User). v.id ≢ pos (db.user_seq + 1)) db.users
              (λ v below same. taken v.id below.0 below.1 below.2 same) numbered.below)
            numbered.keyed)
          e;
  }
    where
      hit : same_subject issuer subject u ≡ true
      hit =
          first_where_holds (same_subject issuer subject)
            (with_subject now issuer subject email name role db) e

      role_of :
          (old : Option User)
          → some u
            ≡ some (elim old [
              | none ↦ fresh_user now issuer subject email name role db.user_seq
              | some v ↦ refreshed now email name role v
            ])
          → u.role ≡ role
      role_of none h = ground arith
      role_of (some v) h = ground arith

      taken : (id : ℤ) (k : ℕ) → id ≡ pos k → k ≤ db.user_seq → id ≡ pos (db.user_seq + 1) → ⊥
      taken id k e le same = ground arith

abbrev pub session_row : ℕ → Text → ℤ → ℕ → Session
session_row now hash user expires_at = record {
  token_hash = hash;
  user_id = user;
  created_at = from_unix (unix now);
  expires_at = from_unix (unix expires_at);
  impersonating_user_id = none;
  impersonation_expires_at = none;
}

-- A session that was created is read until it expires.
pub create_session-reads :
    (now : ℕ) (hash : Text) (user : ℤ) (expires_at : ℕ) (db : Db) (r : Unit {0}) (t : ℕ)
    → (create_session now hash user expires_at db).0 ≡ ok r
    → t ≤ from_unix (unix expires_at)
    → (get_session t hash (create_session now hash user expires_at db).1).0
      ≡ ok (session_row now hash user expires_at)
unfolding create_session get_session
create_session-reads now hash user expires_at db r t made early =
    let live = delete_where (λ s. ltb (unix s.expires_at) (unix now)) db.sessions in
    elim (Bool-cases (any (λ (s : Session). s.token_hash == hash) live)) [
      | inl taken ↦ ground (arith, taken)
      | inr free ↦ ground (
        arith,
        free,
        first_where-append_new (λ (s : Session). s.token_hash == hash) live
            (session_row now hash user expires_at) free (ground (arith, text_beq_iff hash hash)),
      )
    ]

pub create_session-users :
    (now : ℕ) (hash : Text) (user : ℤ) (expires_at : ℕ) (db : Db)
    → (create_session now hash user expires_at db).1.users ≡ db.users
unfolding create_session
create_session-users now hash user expires_at db = ground arith

pub upsert-users :
    (now : ℕ) (issuer subject email name role : Text) (db : Db) (u : User)
    → (upsert_user_by_oidc now issuer subject email name role db).0 ≡ ok u
    → (first_where
          (same_subject issuer subject)
          (with_subject now issuer subject email name role db)
        ≡ some u)
      × ((upsert_user_by_oidc now issuer subject email name role db).1.users
          ≡ with_subject now issuer subject email name role db)
unfolding upsert_user_by_oidc
upsert-users now issuer subject email name role db u h = elim (Bool-cases (is_role role)) [
  | inr bad ↦ ground (arith, bad)
  | inl fit ↦ (
    row_of
        (first_where (same_subject issuer subject)
          (with_subject now issuer subject email name role db))
        (ground (arith, fit)),
    ground (arith, fit),
  )
]
  where
    row_of : (o : Option User) → scanned o ≡ ok u → o ≡ some u
    row_of none k = ground arith
    row_of (some v) k = ground arith

module _ (a : Authenticator) (now : ℕ) (e : AuditEvent) (db : Db) where
  pub noted-sessions : (noted a now e db).sessions ≡ db.sessions
  unfolding noted append_audit
  noted-sessions = ground arith

  pub noted-users : (noted a now e db).users ≡ db.users
  unfolding noted append_audit
  noted-users = ground arith

pub reads_alike :
    (t : ℕ) (hash : Text) (db after : Db)
    → after.sessions ≡ db.sessions
    → (get_session t hash after).0 ≡ (get_session t hash db).0
unfolding get_session
reads_alike t hash db after same =
    elim (Option-cases (first_where (λ (s : Session). s.token_hash == hash) db.sessions)) [
      | inl e ↦ ground (arith, same, e)
      | inr (s, e) ↦ ground (arith, same, e)
    ]

-- The middleware lets a request with the cookie of such a session act as its user.
pub middleware_self :
    (hash_token : Text → Text) (get : Text → Result Error Session) (users : ℤ → Result Error User)
    (t : ℕ) (r : Request) (token : Text) (s : Session) (u : User)
    → token ≢ []
    → r.cookie ≡ some token
    → get (hash_token token) ≡ ok s
    → s.impersonating_user_id ≡ none
    → users s.user_id ≡ ok u
    → session_middleware hash_token get users t r ≡ passed (as_self (hash_token token) u)
unfolding session_middleware with_session with_user viewed guarded
middleware_self hash_token get users t r [] s u full c g calm k = absurd (full refl)
middleware_self hash_token get users t r (d ∷ rest) s u full c g calm k =
    ground (arith, c, g, calm, k)

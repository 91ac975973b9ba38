-- ===== src/Store/Sessions.antt =====
-- internal/store/sessions.go and users.go
pub mod Expiry
use gigmcp.Base.{
  Text, List, [], ◌∷◌, ◌++◌, ℕ, ◌+◌, ℤ, pos, Bool, true, false, ◌&&◌, ◌||◌, ◌==◌, comparable_text,
  comparable_int, any, first_where, delete_where, update_where, upsert, if◌then◌else◌, Option, none,
  some, Result, ok, err, ltb, leb, lit,
}
use gigmcp.Store.Types.{
  Db, Session, User, Error, session_not_found, user_not_found, failure, unix, from_unix,
}

-- The purge and the INSERT, which PRIMARY KEY refuses for a token hash that is taken.
unfoldable pub create_session : ℕ → Text → ℤ → ℕ → Db → Result Error (Unit {0}) × Db
unfolding any
create_session now hash user expires_at db =
    let live = delete_where (λ s. ltb (unix s.expires_at) (unix now)) db.sessions in
    let row : Session = record {
      token_hash = hash;
      user_id = user;
      created_at = from_unix (unix now);
      expires_at = from_unix (unix expires_at);
      impersonating_user_id = none;
      impersonation_expires_at = none;
    } in
    if any (λ s. s.token_hash == hash) live
    then (
      err (failure (lit "UNIQUE constraint failed: sessions.token_hash")),
      record db { sessions = live },
    )
    else (ok tt, record db { sessions = live ++ row ∷ [] })

-- A row that is read past its expiry is deleted and reported as missing.
unfoldable pub get_session : ℕ → Text → Db → Result Error Session × Db
get_session now hash db = elim (first_where (λ s. s.token_hash == hash) db.sessions) [
  | none ↦ (err session_not_found, db)
  | some sess ↦
      if ltb sess.expires_at now
      then (
        err session_not_found,
        record db {
          sessions =
              delete_where
                (λ s. s.token_hash == hash && leb (unix s.expires_at) (unix sess.expires_at))
                db.sessions;
        },
      )
      else (ok sess, db)
]

unfoldable pub delete_session : Text → Db → Db
delete_session hash db = record db {
  sessions = delete_where (λ s. s.token_hash == hash) db.sessions;
}

unfoldable pub set_impersonation : Text → ℤ → ℕ → Db → Result Error (Unit {0}) × Db
unfolding any
set_impersonation hash target expires_at db =
    if any (λ s. s.token_hash == hash) db.sessions
    then (
      ok tt,
      record db {
        sessions =
            update_where (λ s. s.token_hash == hash)
              (λ s. record s {
                impersonating_user_id = some target;
                impersonation_expires_at = some (from_unix (unix expires_at));
              })
              db.sessions;
      },
    )
    else (err session_not_found, db)

unfoldable pub clear_impersonation : Text → Db → Db
clear_impersonation hash db = record db {
  sessions =
      update_where (λ s. s.token_hash == hash)
        (λ s. record s { impersonating_user_id = none; impersonation_expires_at = none })
        db.sessions;
}

-- scanUser, of the row that was found
abbrev pub scanned : Option User → Result Error User
scanned none = err user_not_found
scanned (some u) = ok u

unfoldable pub get_user : ℤ → Db → Result Error User
get_user id db = scanned (first_where (λ u. u.id == id) db.users)

-- CHECK(role IN ('admin','user'))
abbrev pub is_role : Text → Bool
is_role role = role == lit "admin" || role == lit "user"

abbrev pub same_subject : Text → Text → User → Bool
same_subject issuer subject u = u.issuer == issuer && u.subject == subject

abbrev pub refreshed : ℕ → Text → Text → Text → User → User
refreshed now email display_name role u = record u {
  email = email;
  display_name = display_name;
  role = role;
  last_login_at = from_unix (unix now);
}

abbrev pub fresh_user : ℕ → Text → Text → Text → Text → Text → ℕ → User
fresh_user now issuer subject email display_name role seq = record {
  id = pos (seq + 1);
  issuer = issuer;
  subject = subject;
  email = email;
  display_name = display_name;
  role = role;
  created_at = from_unix (unix now);
  last_login_at = from_unix (unix now);
}

-- The table of the users after the statement.
abbrev pub with_subject : ℕ → Text → Text → Text → Text → Text → Db → List User
with_subject now issuer subject email display_name role db =
    upsert (same_subject issuer subject) (refreshed now email display_name role)
      (fresh_user now issuer subject email display_name role db.user_seq) db.users

-- The RETURNING row.
unfoldable pub upsert_user_by_oidc :
    ℕ → Text → Text → Text → Text → Text → Db → Result Error User × Db
upsert_user_by_oidc now issuer subject email display_name role db =
    if is_role role
    then (
      scanned (
          first_where (same_subject issuer subject)
            (with_subject now issuer subject email display_name role db)),
      record db {
        users = with_subject now issuer subject email display_name role db;
        user_seq =
            if any (same_subject issuer subject) db.users then db.user_seq else db.user_seq + 1;
      },
    )
    else (err (failure (lit "CHECK constraint failed: role IN ('admin','user')")), db)

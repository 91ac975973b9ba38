-- ===== src/Auth/Session.antt =====
-- internal/auth/session.go: the session cookie, the view-as rule, and the admin gate. The hash is
-- crypto/sha256's; the store answers by functions, as it may fail.
pub mod Authority
use gigmcp.Base.{
  Text, List, [], ◌∷◌, ℕ, ℤ, Bool, true, false, ◌&&◌, ◌||◌, not, ◌==◌, comparable_text,
  if◌then◌else◌, Option, none, some, Result, ok, err, ltb, lit,
}
use gigmcp.Store.Types.{Session, User, Error, session_not_found, user_not_found}

-- What the middleware puts into the context of a request.
pub record Context : Type 0 where
  pub real_user : User
  pub effective_user : User
  pub session_hash : Text
  pub impersonating : Bool

pub record Request : Type 0 where
  pub cookie : Option Text
  pub method : Text
  pub path : Text

pub data Outcome : Type 0 where
  -- writeAuthError with this status
  refused : ℕ → Outcome
  -- the next handler runs
  passed : Context → Outcome

abbrev pub stop_impersonation_path : Text
stop_impersonation_path = lit "/api/admin/impersonate"

unfoldable pub impersonation_safe_method : Text → Bool
impersonation_safe_method method = method == lit "GET" || method == lit "HEAD"

-- The last guard.
unfoldable pub guarded : Request → Context → Outcome
unfolding impersonation_safe_method
guarded r ctx =
    if ctx.impersonating
      && not (impersonation_safe_method r.method)
      && not (r.method == lit "DELETE" && r.path == stop_impersonation_path)
    then refused 403
    else passed ctx

abbrev pub as_self : Text → User → Context
as_self hash real = record {
  real_user = real;
  effective_user = real;
  session_hash = hash;
  impersonating = false;
}

abbrev pub as_other : Text → User → User → Context
as_other hash real target = record {
  real_user = real;
  effective_user = target;
  session_hash = hash;
  impersonating = true;
}

-- The target of a view-as state that has not run out at `now`.
unfoldable pub viewed : ℕ → Session → Option ℤ
viewed now sess = elim sess.impersonating_user_id [
  | none ↦ none
  | some target ↦ elim sess.impersonation_expires_at [
    | none ↦ none
    | some until ↦ if ltb now until then some target else none
  ]
]

module _ (hash_token : Text → Text) (get_session : Text → Result Error Session)
    (get_user : ℤ → Result Error User) where
  unfoldable pub with_user : ℕ → Request → Text → Session → User → Outcome
  unfolding guarded viewed
  with_user now r hash sess real = elim (viewed now sess) [
    | none ↦ guarded r (as_self hash real)
    | some id ↦ elim (get_user id) [
      | ok target ↦ guarded r (as_other hash real target)
      | err user_not_found ↦ guarded r (as_self hash real)
      | err e ↦ refused 500
    ]
  ]

  unfoldable pub with_session : ℕ → Request → Text → Session → Outcome
  unfolding with_user
  with_session now r hash sess = elim (get_user sess.user_id) [
    | ok real ↦ with_user now r hash sess real
    | err user_not_found ↦ refused 401
    | err e ↦ refused 500
  ]

  unfoldable pub session_middleware : ℕ → Request → Outcome
  unfolding with_session
  session_middleware now r = elim r.cookie [
    | none ↦ refused 401
    | some [] ↦ refused 401
    | some (c ∷ value) ↦ elim (get_session (hash_token (c ∷ value))) [
      | ok sess ↦ with_session now r (hash_token (c ∷ value)) sess
      | err session_not_found ↦ refused 401
      | err e ↦ refused 500
    ]
  ]

-- Whether the handler behind the gate runs; `none` is a context without a real user.
unfoldable pub require_admin : Option Context → Bool
require_admin none = false
require_admin (some ctx) = ctx.real_user.role == lit "admin"

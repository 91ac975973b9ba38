-- ===== src/Api/Users.antt =====
-- internal/api/users.go, me.go: the users, and view-as. time.Duration is an int64 of nanoseconds.
pub mod ViewAs
use gigmcp.Base.{
  Text, List, [], ◌∷◌, ◌++◌, ℕ, ◌+◌, ◌*◌, ◌-◌, ◌%◌, ◌^◌, ℤ, pos, negsuc, Bool, true, false, not,
  ◌||◌, ◌==◌, comparable_int, leb, ltb, nat_beq, map, if◌then◌else◌, Option, none, some, Result, ok,
  err, ◌>>=◌, ◌>>◌, require, or_else, attempt, unless_fault, lit,
}
use gigmcp.Store.Types.{Db, User, AuditEvent, AuditKind, admin, Error, second}
use gigmcp.Store.Sessions.{get_user, set_impersonation, clear_impersonation}
use gigmcp.Store.Audit.{append_audit}
use gigmcp.Auth.Session.{Context}
use gigmcp.Api.Types.{Control, Env, Reply, failed, wrote, admin_event, with_db}

pub record UserJson : Type 0 where
  pub id : ℤ
  pub email : Text
  pub display_name : Text
  pub role : Text

abbrev pub to_user_json : User → UserJson
to_user_json u = record { id = u.id; email = u.email; display_name = u.display_name; role = u.role }

pub record Me : Type 0 where
  pub user : UserJson
  pub impersonating : Bool
  pub real_user : Option UserJson

unfoldable pub handle_me : Option Context → Reply Me
handle_me none = failed 401
handle_me (some ctx) = wrote 200 (record {
  user = to_user_json ctx.effective_user;
  impersonating = ctx.impersonating;
  real_user = if ctx.impersonating then some (to_user_json ctx.real_user) else none;
})

unfoldable pub handle_list_users : Env → Control → Reply (List UserJson)
handle_list_users env s = elim env.load_fault [
  | some e ↦ failed 500
  | none ↦ wrote 200 (map (λ (u : User). to_user_json u) s.db.users)
]

abbrev pub minute : ℕ
minute = 60 * second

abbrev pub max_impersonation_ttl : ℕ
max_impersonation_ttl = 60 * minute

abbrev pub word : ℕ
word = 2 ^ 64

-- The bits of time.Duration(minutes) * time.Minute, which wraps around.
unfoldable pub duration_bits : ℤ → ℕ
duration_bits (pos m) = (m * minute) % word
duration_bits (negsuc m) = (word - ((m + 1) * minute) % word) % word

-- Not positive, or above the maximum, is the maximum.
unfoldable pub impersonation_ttl : ℤ → ℕ
unfolding duration_bits
impersonation_ttl minutes =
    let bits = duration_bits minutes in
    if nat_beq bits 0 || leb (2 ^ 63) bits || ltb max_impersonation_ttl bits
    then max_impersonation_ttl
    else bits

abbrev pub impersonation_event : Text → Text → Text → Option ℤ → AuditEvent
impersonation_event admin_email target_email decision target =
    admin_event target none decision (lit "admin=" ++ admin_email ++ lit " target=" ++ target_email)

module _ (env : Env) (ctx : Context) where
  -- The user to view, or the status of the first check that fails.
  unfoldable pub target_of : Result ℕ (ℤ × ℤ) → Db → Result ℕ (User × ℤ)
  target_of body db = do
    (user, minutes) ← body
    require (not (user == pos 0)) 400
    require (not (user == ctx.real_user.id)) 400
    target ← or_else 404 (unless_fault env.load_fault (get_user user db))
    ok (target, minutes)

  -- The audit row is part of the handler: its failure is the handler's, after the write.
  unfoldable pub impersonation_noted : AuditEvent → Control → Reply (Unit {0}) × Control
  impersonation_noted e s = elim env.audit_fault [
    | some f ↦ (failed 500, s)
    | none ↦ (wrote 204 tt, with_db (append_audit env.now e s.db) s)
  ]

  abbrev pub after_write :
      Result Error (Unit {0}) → AuditEvent → Control → Reply (Unit {0}) × Control
  after_write (ok done) e s = impersonation_noted e s
  after_write (err f) e s = (failed 500, s)

  unfoldable pub handle_start_impersonation :
      Result ℕ (ℤ × ℤ) → Control → Reply (Unit {0}) × Control
  unfolding target_of impersonation_ttl impersonation_noted
  handle_start_impersonation body s = elim (target_of body s.db) [
    | err status ↦ (failed status, s)
    | ok (target, minutes) ↦
        let made =
          attempt env.write_fault
            (set_impersonation ctx.session_hash target.id (env.now + impersonation_ttl minutes))
            s.db in
        after_write made.0
          (impersonation_event ctx.real_user.email target.email (lit "impersonate_start")
            (some target.id))
          (with_db made.1 s)
  ]

  -- The user viewed, unless it is the real one.
  abbrev pub viewed_id : Option ℤ
  viewed_id = if ctx.effective_user.id == ctx.real_user.id then none else some ctx.effective_user.id

  unfoldable pub handle_stop_impersonation : Control → Reply (Unit {0}) × Control
  unfolding impersonation_noted
  handle_stop_impersonation s = elim env.write_fault [
    | some e ↦ (failed 500, s)
    | none ↦
        impersonation_noted
          (impersonation_event ctx.real_user.email ctx.effective_user.email (lit "impersonate_stop")
            viewed_id)
          (with_db (clear_impersonation ctx.session_hash s.db) s)
  ]

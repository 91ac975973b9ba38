-- ===== src/Api/Types.antt =====
-- internal/api/api.go, respond.go: the state of the control plane, replies, and the audit row that
-- a handler writes. The clock, the random source, the vault and the JSON decoder are parameters,
-- and the reads, the write and the audit row of a handler may fail.
use gigmcp.Base.{Text, List, [], ◌∷◌, ℕ, ℤ, Option, none, some, Result, err}
use gigmcp.Store.Types.{Db, User, AuditEvent, admin, Error}
use gigmcp.Store.Installs.{Cut}
use gigmcp.Store.Audit.{append_audit}
use gigmcp.Auth.Session.{Context}

-- The tables, and the profiles whose runtimes were invalidated, newest first.
pub record Control : Type 0 where
  pub db : Db
  pub invalidated : List ℤ

pub record Env : Type 0 where
  pub now : ℕ
  -- the first read of a handler, and its later ones
  pub load_fault : Option Error
  pub read_fault : Option Error
  pub write_fault : Option Error
  -- which statement fails of those that run without a transaction
  pub cut : Cut
  pub audit_fault : Option Error
  -- auth.NewProfileToken
  pub entropy : Result Error Text
  pub hash_token : Text → Text
  pub encrypt : Text → Result Error Text

-- A refusal of type E, which is a status for most handlers, and a status with its text for those
-- of profiles.
pub data ReplyOf (E A : Type 0) : Type 0 where
  -- writeErr
  failed : E → ReplyOf E A
  -- writeJSON, or WriteHeader alone, with this status
  wrote : ℕ → A → ReplyOf E A

abbrev pub Reply : Type 0 → Type 0
Reply A = ReplyOf ℕ A

-- What writeErr sends: the status, the code and the message.
pub record Failure : Type 0 where
  pub status : ℕ
  pub code : Text
  pub message : Text

abbrev pub effective_user : Option Context → Option User
effective_user none = none
effective_user (some ctx) = some ctx.effective_user

abbrev pub real_user : Option Context → Option User
real_user none = none
real_user (some ctx) = some ctx.real_user

abbrev pub id_of : Option User → Option ℤ
id_of none = none
id_of (some u) = some u.id

abbrev pub admin_event : Option ℤ → Option ℤ → Text → Text → AuditEvent
admin_event user profile decision detail = record {
  id = 0;
  ts = none;
  kind = admin;
  user_id = user;
  profile_id = profile;
  server = [];
  host = [];
  decision = decision;
  detail = detail;
}

-- Server.audit: a failure is logged only.
unfoldable pub audit : Env → Option Context → Text → Text → Option ℤ → Db → Db
audit env ctx decision detail profile db = elim env.audit_fault [
  | some e ↦ db
  | none ↦ append_audit env.now (admin_event (id_of (real_user ctx)) profile decision detail) db
]

-- s.invalidate
abbrev pub invalidate : ℤ → Control → Control
invalidate id s = record s { invalidated = id ∷ s.invalidated }

abbrev pub with_db : Db → Control → Control
with_db db s = record s { db = db }

-- A write of the store under its failure.
abbrev pub stored {ℓ} : {A : Type ℓ} → Env → (Db → Result Error A × Db) → Db → Result Error A × Db
stored env op db = elim env.write_fault [ none ↦ op db | some e ↦ (err e, db) ]

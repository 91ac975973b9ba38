-- ===== src/Store/Audit.antt =====
-- internal/store/audit.go: the audit table and its pages.
pub mod Paging
use gigmcp.Base.{
  List, [], ◌∷◌, ℕ, ◌+◌, ◌<◌, ◌≤◌, ℤ, pos, negsuc, zero, suc, Bool, true, false, ◌&&◌, ◌==◌,
  comparable_int, if◌then◌else◌, Option, none, some, ltb, where_, take, All,
}
use gigmcp.Store.Types.{Db, AuditEvent, unix, from_unix}

unfoldable pub append_audit : ℕ → AuditEvent → Db → Db
append_audit now e db = record db {
  audit =
      record e {
        id = db.audit_seq + 1;
        ts = some (from_unix (unix (elim e.ts [ none ↦ now | some t ↦ t ])));
      }
      ∷ db.audit;
  audit_seq = db.audit_seq + 1;
}

-- The limit, clamped to 1 … 500.
unfoldable pub clamp : ℤ → ℕ
clamp (negsuc n) = 100
clamp (pos zero) = 100
clamp (pos (suc n)) = if ltb 500 (suc n) then 500 else suc n

-- "id < ?", for a positive argument only.
abbrev pub is_before : ℤ → AuditEvent → Bool
is_before (negsuc n) e = true
is_before (pos zero) e = true
is_before (pos (suc n)) e = ltb e.id (suc n)

-- "user_id = ?", which NULL never matches; 0 asks for every user's.
abbrev pub is_of : ℤ → AuditEvent → Bool
is_of user e =
    if user == pos 0 then true else elim e.user_id [ none ↦ false | some id ↦ id == user ]

unfoldable pub matching : ℤ → ℤ → List AuditEvent → List AuditEvent
unfolding where_
matching before user rows = where_ (λ e. is_before before e && is_of user e) rows

unfoldable pub list_audit : ℤ → ℤ → ℤ → Db → List AuditEvent
unfolding clamp matching
list_audit before limit user db = take (clamp limit) (matching before user db.audit)

-- Ids fall from row to row.
abbrev pub IsFalling : List AuditEvent → Type 0
IsFalling [] = Unit
IsFalling (e ∷ rows) = All (λ (d : AuditEvent). d.id < e.id) rows × IsFalling rows

-- AUTOINCREMENT's keys.
pub record IsLog (db : Db) : Type 0 where
  pub falling : IsFalling db.audit
  pub positive : All (λ (e : AuditEvent). (0 < e.id) × (e.id ≤ db.audit_seq)) db.audit

-- ===== src/Api/AuditLog.antt =====
-- internal/api/audit.go: the audit log, page by page. strconv gives 0 for what is no number.
pub mod Pages
use gigmcp.Base.{
  Text, List, [], ◌∷◌, ℕ, ℤ, pos, negsuc, zero, suc, Bool, true, false, not, ◌==◌, comparable_text,
  ◌+◌, ◌&&◌, ltb, length, leb, ◌*◌, nat_beq, ◌-◌, ◌^◌, if◌then◌else◌, Option, none, some, lit,
}
use gigmcp.Store.Types.{Db, AuditEvent}
use gigmcp.Store.Audit.{list_audit}
use gigmcp.Auth.Session.{Context}
use gigmcp.Api.Types.{Control, Env, Reply, failed, wrote}

pub record AuditPage : Type 0 where
  pub events : List AuditEvent
  pub next_before : ℕ

-- A number that does not fit is the greatest of its sign.
unfoldable pub saturated : Bool → Option ℕ → ℤ
saturated negative none = pos 0
saturated false (some n) = if ltb n (2 ^ 63) then pos n else pos (2 ^ 63 - 1)
saturated true (some zero) = pos 0
saturated true (some (suc n)) = if ltb n (2 ^ 63) then negsuc n else negsuc (2 ^ 63 - 1)

-- strconv.ParseUint: digits that pass 64 bits end the scan with the greatest number, whatever
-- follows them, and anything else than a digit before that is an error.
unfoldable pub scanned_from : ℕ → Text → Option ℕ
scanned_from n [] = some n
scanned_from n (c ∷ s) =
    let more = n * 10 + (c - b'0') in
    let rest = scanned_from more s in
    if leb b'0' c && leb c b'9' then if leb (2 ^ 64) more then some (2 ^ 64 - 1) else rest else none

unfoldable pub unsigned : Text → Option ℕ
unfolding scanned_from
unsigned [] = none
unsigned (c ∷ s) = scanned_from 0 (c ∷ s)

-- v, _ := strconv.ParseInt(s, 10, 64)
unfoldable pub number : Text → ℤ
unfolding unsigned saturated
number [] = pos 0
number (c ∷ s) =
    if nat_beq c b'-'
    then saturated true (unsigned s)
    else if nat_beq c b'+'
    then saturated false (unsigned s)
    else saturated false (unsigned (c ∷ s))

-- Anything but 1 … 200 is 50.
unfoldable pub page_limit : ℤ → ℕ
page_limit (negsuc n) = 50
page_limit (pos zero) = 50
page_limit (pos (suc n)) = if ltb 200 (suc n) then 50 else suc n

-- Whose events; 0 is everybody's.
unfoldable pub user_filter : Context → Text → ℤ
unfolding number
user_filter ctx asked =
    if ctx.impersonating
    then ctx.effective_user.id
    else if not (ctx.real_user.role == lit "admin")
    then ctx.real_user.id
    else number asked

-- The id of the last event, or `n` of an empty page.
unfoldable pub last_id : ℕ → List AuditEvent → ℕ
last_id n [] = n
last_id n (e ∷ events) = last_id e.id events

unfoldable pub page_of : ℕ → List AuditEvent → AuditPage
unfolding last_id
page_of limit events = record {
  events = events;
  next_before = if ltb (length events) limit then 0 else last_id 0 events;
}

unfoldable pub handle_list_audit : Env → Context → Text → Text → Text → Control → Reply AuditPage
unfolding page_limit user_filter page_of
handle_list_audit env ctx before limit asked s = elim env.load_fault [
  | some e ↦ failed 500
  | none ↦
      let size = page_limit (number limit) in
      wrote 200 (page_of size (list_audit (number before) (pos size) (user_filter ctx asked) s.db))
]

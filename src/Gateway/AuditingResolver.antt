-- ===== src/Gateway/AuditingResolver.antt =====
-- internal/gateway/audit_resolver.go: the resolver of the proxy, with a record of each answer sent
-- to a writer goroutine over a channel of 256 places.
pub mod Conservation
pub mod Order
pub mod Verdict
use gigmcp.Base.{
  Text, List, [], ◌∷◌, ◌++◌, ℕ, ◌+◌, Bool, true, false, Option, none, some, Result, ok, err,
  if◌then◌else◌, length, ltb, lit, ℤ,
}
use gigmcp.Proxy.{Identity, Credential}
use gigmcp.Proxy.Allow.{CaseTable, host_allowed}
use gigmcp.Store.Types.{AuditEvent, egress, Profile, Error}
use gigmcp.Gateway.Resolver.{resolve_tenant}

pub record AuditRecord : Type 0 where
  pub server : Text
  pub tenant : Text
  pub host : Text
  pub decision : Text
  pub detail : Text

-- `in_hand` is the record that the writer has received and not yet appended, and `written` are the
-- rows that it appended.
pub record AuditingResolver : Type 0 where
  pub ch : List AuditRecord
  pub in_hand : Option AuditRecord
  pub closed : Bool
  pub dropped : ℕ
  pub written : List AuditEvent

abbrev pub new_auditing_resolver : AuditingResolver
new_auditing_resolver = record {
  ch = [];
  in_hand = none;
  closed = false;
  dropped = 0;
  written = [];
}

abbrev pub buffer : ℕ
buffer = 256

-- The part of Resolve under the mutex.
unfoldable pub offer : AuditRecord → AuditingResolver → AuditingResolver
offer rec a =
    if a.closed
    then record a { dropped = a.dropped + 1 }
    else if ltb (length a.ch) buffer
    then record a { ch = a.ch ++ rec ∷ [] }
    else record a { dropped = a.dropped + 1 }

-- The row of a record: the writer joins the profile and its owner.
unfoldable pub event_of : (ℤ → Result Error Profile) → AuditRecord → AuditEvent
event_of get_profile rec =
    let tenant = resolve_tenant get_profile rec.tenant in
    record {
      id = 0;
      ts = none;
      kind = egress;
      user_id = tenant.user_id;
      profile_id = tenant.profile_id;
      server = rec.server;
      host = rec.host;
      decision = rec.decision;
      detail = rec.detail;
    }

-- `for rec := range a.ch`, of a writer that is idle.
unfoldable pub receive : AuditingResolver → AuditingResolver
receive a = elim a.in_hand [
  | some rec ↦ a
  | none ↦ elim a.ch [ [] ↦ a | rec ∷ rest ↦ record a { ch = rest; in_hand = some rec } ]
]

-- The rest of the writer's loop; the flag tells whether AppendAudit succeeded.
unfoldable pub write : (ℤ → Result Error Profile) → Bool → AuditingResolver → AuditingResolver
write get_profile appended a = elim a.in_hand [
  | none ↦ a
  | some rec ↦
      if appended
      then record a { in_hand = none; written = a.written ++ event_of get_profile rec ∷ [] }
      else record a { in_hand = none; dropped = a.dropped + 1 }
]

unfoldable pub close : AuditingResolver → AuditingResolver
close a = record a { closed = true }

module _ {ℓ} ⦃t : CaseTable⦄ {E : Type ℓ} (message : E → Text) where
  -- The record of what the inner resolver answered.
  unfoldable pub judged : Identity → Text → Result E Credential → AuditRecord
  judged id host (err e) = record {
    server = id.server;
    tenant = id.tenant;
    host = host;
    decision = lit "error";
    detail = message e;
  }
  judged id host (ok cred) =
      if host_allowed host cred.allowed_hosts
      then record {
        server = id.server;
        tenant = id.tenant;
        host = host;
        decision = lit "resolved";
        detail = [];
      }
      else record {
        server = id.server;
        tenant = id.tenant;
        host = host;
        decision = lit "denied";
        detail = lit "host not in allowlist";
      }

  unfoldable pub audited :
      (Identity → Text → Result E Credential)
      → Identity
      → Text
      → AuditingResolver
      → Result E Credential × AuditingResolver
  unfolding offer judged
  audited inner id host a = (inner id host, offer (judged id host (inner id host)) a)

-- ===== src/Examples/AuditCases.antt =====
-- Runs of the audit trail and of the session middleware.
use gigmcp.Base.{
  Text, List, [], ◌∷◌, ℤ, pos, true, ◌≡◌, refl, lit, if◌then◌else◌, some, Result, ok, err, text_beq,
  int_beq, ◌==◌, comparable_text, comparable_int,
}
use gigmcp.Store.Types.{
  Profile, User, Session, Error, profile_not_found, session_not_found, user_not_found,
}
use gigmcp.Proxy.{Identity, Credential}
use gigmcp.Proxy.Tunnel.{hostname}
use gigmcp.Gateway.AuditingResolver.{AuditRecord, new_auditing_resolver, audited}
use gigmcp.Gateway.AuditingResolver.Conservation.{
  Action, resolved, takes, wrote, closes, run, submitted, IsConserved, run-IsConserved,
}
use gigmcp.Gateway.AuditingResolver.Verdict.{IsVerdict, admitted-judged}
use gigmcp.Proxy.Tunnel.{Env}
use gigmcp.Auth.Session.{
  Context, Request, passed, refused as forbidden, session_middleware, with_session, with_user,
  viewed, guarded, impersonation_safe_method,
}
use gigmcp.Auth.Session.Authority.{IsActing, session_middleware-IsActing}
use gigmcp.Examples.EgressCases.{ascii, cred, tenant, connect}
use gigmcp.Examples.StoreCases.{session}

abbrev profile_of : ℤ → Result Error Profile
profile_of id = err profile_not_found

abbrev one : AuditRecord
one = record {
  server = lit "github";
  tenant = lit "7";
  host = lit "api.github.com";
  decision = lit "resolved";
  detail = [];
}

-- Recorded, written, closed, and one answer more that is dropped.
abbrev actions : List Action
actions = resolved one ∷ closes ∷ wrote true ∷ takes ∷ resolved one ∷ []

run-IsConserved_example :
    IsConserved profile_of (submitted profile_of actions) (run profile_of actions)
run-IsConserved_example = run-IsConserved profile_of actions

abbrev inner : Identity → Text → Result Text Credential
inner id host = ok cred

abbrev willing : Env
willing = record { hijacker = true; hijacked = true; greeted = true; leaf = true; handshake = true }

abbrev said : Text → Text
said e = e

admitted-judged_example :
    ((audited said inner tenant (hostname connect.host) new_auditing_resolver).0
      ≡ inner tenant (hostname connect.host))
    × ((rec : AuditRecord) × IsVerdict said inner new_auditing_resolver tenant connect willing rec)
admitted-judged_example = admitted-judged said inner new_auditing_resolver tenant connect willing

abbrev admin : User
admin = record {
  id = pos 7;
  issuer = [];
  subject = [];
  email = [];
  display_name = [];
  role = lit "admin";
  created_at = 0;
  last_login_at = 0;
}

abbrev viewing : Session
viewing = record session { impersonating_user_id = some (pos 8); impersonation_expires_at = some 9 }

abbrev users : ℤ → Result Error User
users id =
    if id == pos 7
    then ok admin
    else if id == pos 8
    then ok (record admin { id = pos 8; role = lit "user" })
    else err user_not_found

abbrev sessions : Text → Result Error Session
sessions hash = if hash == lit "tok" then ok viewing else err session_not_found

abbrev get_request : Request
get_request = record { cookie = some (lit "tok"); method = lit "GET"; path = lit "/api/profiles" }

abbrev acting : Context
acting = record {
  real_user = admin;
  effective_user = record admin { id = pos 8; role = lit "user" };
  session_hash = lit "tok";
  impersonating = true;
}

-- The same request as a POST is refused.
posting_refused :
    session_middleware (λ t. t) sessions users 5 (record get_request { method = lit "POST" })
    ≡ forbidden 403
unfolding session_middleware with_session with_user viewed guarded impersonation_safe_method int_beq
    text_beq
posting_refused = refl

passing : session_middleware (λ t. t) sessions users 5 get_request ≡ passed acting
unfolding session_middleware with_session with_user viewed guarded impersonation_safe_method int_beq
    text_beq
passing = refl

session_middleware-IsActing_example :
    (cookie : Text) × (sess : Session) × (some (lit "tok") ≡ some cookie)
    × (sessions cookie ≡ ok sess)
    × IsActing users 5 get_request sess acting
session_middleware-IsActing_example =
    session_middleware-IsActing (λ t. t) sessions users 5 get_request acting passing

-- ===== src/Examples/LoginCases.antt =====
-- Runs of the login and of the control plane.
use gigmcp.Base.{
  Text, List, [], ◌∷◌, ◌++◌, ◌*◌, pos, true, false, ◌==◌, comparable_text, comparable_int, none,
  some, ok, lit, ◌≡◌, ◌≢◌, refl, subst, arith, first_where, text_beq, int_beq, any, upsert,
  delete_where, has_prefix,
}
use gigmcp.Store.Types.{Db, User, Session, second}
use gigmcp.Store.Audit.{append_audit, list_audit, clamp}
use gigmcp.Store.Sessions.{upsert_user_by_oidc, create_session, get_user, set_impersonation}
use gigmcp.Auth.Flow.{verify_flow}
use gigmcp.Auth.Flow.Signing.{IsUnforged}
use gigmcp.Auth.Oidc.{
  Authenticator, LoginFlow, IdToken, Claims, LoginCallback, logged_in, login_callback,
}
use gigmcp.Auth.Oidc.Entry.{IsIdentified, IsLoggedIn, login_callback-IsLoggedIn}
use gigmcp.Auth.Session.{Context}
use gigmcp.Api.Types.{Control, Env, wrote}
use gigmcp.Api.Envelope.{Call, header, body, envelope_mux, raw, envelope}
use gigmcp.Api.Envelope.Rewritten.{status_of, body_of, envelope_mux_lem}
use gigmcp.Api.Users.{handle_start_impersonation}
use gigmcp.Api.Users.ViewAs.{IsViewed, handle_start_impersonation-IsViewed}
use gigmcp.Api.AuditLog.{AuditPage, number, saturated, unsigned, scanned_from, handle_list_audit}
use gigmcp.Api.AuditLog.Pages.{IsPage, handle_list_audit-IsPage}
use gigmcp.Examples.StoreCases.{db, session}
use gigmcp.Examples.AuthCases.{codec_of, cookie-IsUnforged}

abbrev login_flow : LoginFlow
login_flow = record { state = lit "st"; nonce = lit "n"; verifier = lit "v"; expires = pos 600 }

abbrev id_token : IdToken
id_token = record { issuer = lit "idp"; subject = lit "s1"; nonce = lit "n" }

abbrev said : Claims
said = record { email = lit "a@b"; name = lit "A"; roles = lit "gig-admin" ∷ [] }

abbrev authenticator : Authenticator
authenticator = record {
  codec = codec_of login_flow (λ (fs : LoginFlow). fs.expires);
  admin_role = lit "gig-admin";
  session_ttl = 3600 * second;
  end_session_endpoint = [];
  exchange = λ code verifier. ok (some (lit "jwt"));
  verify_id = λ raw. ok id_token;
  claims_of = λ raw. ok said;
  auth_code_url = λ state nonce pkce create. [];
  logout_url = λ raw. none;
  hash_token = λ t. lit "#" ++ t;
  user_fault = none;
  session_fault = none;
  audit_fault = none;
}

abbrev back : LoginCallback
back = record { cookie = some (lit "f.m"); error = []; state = lit "st"; code = lit "c" }

abbrev after_login : Db
after_login = (login_callback authenticator second (ok (lit "tok")) back db).1

logs_in :
    login_callback authenticator second (ok (lit "tok")) back db
    ≡ (logged_in (lit "tok") (lit "jwt"), after_login)
unfolding login_callback verify_flow text_beq upsert_user_by_oidc create_session upsert first_where
    any delete_where append_audit
logs_in = refl

back-IsUnforged :
    (v : Text) → back.cookie ≡ some v → IsUnforged authenticator.codec (login_flow ∷ []) v
back-IsUnforged v e =
    subst (λ (t : Text). IsUnforged authenticator.codec (login_flow ∷ []) t) (ground arith)
      (cookie-IsUnforged login_flow (λ (fs : LoginFlow). fs.expires))

login_callback-IsLoggedIn_example :
    (lit "tok" ≡ lit "tok")
    × ((idt : IdToken) × (claims : Claims) × IsIdentified authenticator
          (login_flow ∷ [])
          second
          back
          (lit "jwt")
          idt
          claims
        × IsLoggedIn authenticator
            (login_flow ∷ [])
            second
            back
            (lit "tok")
            db
            after_login
            idt
            claims)
login_callback-IsLoggedIn_example =
    login_callback-IsLoggedIn authenticator (login_flow ∷ []) second back (lit "tok") db after_login
      (lit "jwt") (lit "tok") ((λ p h. refl), tt) back-IsUnforged
      (record { keyed = tt; below = tt }) (λ e. ground arith) logs_in

abbrev boss : User
boss = record {
  id = pos 7;
  issuer = lit "idp";
  subject = lit "s7";
  email = lit "boss@b";
  display_name = lit "Boss";
  role = lit "admin";
  created_at = 0;
  last_login_at = 0;
}

abbrev clerk : User
clerk = record {
  id = pos 8;
  issuer = lit "idp";
  subject = lit "s8";
  email = lit "clerk@b";
  display_name = lit "Clerk";
  role = lit "user";
  created_at = 0;
  last_login_at = 0;
}

abbrev pub env : Env
env = record {
  now = second;
  load_fault = none;
  read_fault = none;
  write_fault = none;
  cut = none;
  audit_fault = none;
  entropy = ok (lit "gig_x");
  hash_token = λ t. t;
  encrypt = λ t. ok t;
}

abbrev pub as_boss : Context
as_boss = record {
  real_user = boss;
  effective_user = boss;
  session_hash = lit "cc";
  impersonating = false;
}

abbrev pub as_clerk : Context
as_clerk = record {
  real_user = clerk;
  effective_user = clerk;
  session_hash = lit "dd";
  impersonating = false;
}

abbrev pub office : Control
office = record { db = record db { users = boss ∷ clerk ∷ [] }; invalidated = [] }

abbrev viewing_office : Control
viewing_office = (handle_start_impersonation env as_boss (ok (pos 8, pos 90)) office).1

starts :
    handle_start_impersonation env as_boss (ok (pos 8, pos 90)) office
    ≡ (wrote 204 tt, viewing_office)
unfolding handle_start_impersonation get_user set_impersonation first_where any text_beq int_beq
starts = refl

session_found :
    first_where (λ (r : Session). r.token_hash == lit "cc") office.db.sessions ≡ some session
unfolding first_where text_beq
session_found = refl

handle_start_impersonation-IsViewed_example :
    IsViewed env as_boss (ok (pos 8, pos 90)) office session viewing_office
handle_start_impersonation-IsViewed_example =
    handle_start_impersonation-IsViewed env as_boss (ok (pos 8, pos 90)) office session 204 tt
      viewing_office session_found starts

abbrev page : AuditPage
page = record { events = []; next_before = 0 }

lists : handle_list_audit env as_clerk (lit "") (lit "10") (lit "") office ≡ wrote 200 page
unfolding handle_list_audit number saturated unsigned scanned_from list_audit clamp
lists = refl

handle_list_audit-IsPage_example : IsPage as_clerk (lit "") (lit "") office.db.audit page
handle_list_audit-IsPage_example =
    handle_list_audit-IsPage env as_clerk (lit "") (lit "10") (lit "") office 200 page
      (record { falling = tt; positive = tt }) lists

abbrev calls : List Call
calls = header 404 ∷ body (lit "404 page not found") ∷ []

envelope_mux_lem_example :
    ((status_of calls ≢ 404) × (status_of calls ≢ 405)
      → envelope_mux (lit "text/plain") (lit "GET") calls ≡ raw (status_of calls) (body_of calls))
    × (has_prefix (lit "text/plain") (lit "application/json") ≡ true
        → envelope_mux (lit "text/plain") (lit "GET") calls ≡ raw (status_of calls) (body_of calls))
    × (has_prefix (lit "text/plain") (lit "application/json") ≡ false
        → status_of calls ≡ 404
        → envelope_mux (lit "text/plain") (lit "GET") calls
          ≡ envelope 404 (lit "not_found") (lit "not found"))
    × (has_prefix (lit "text/plain") (lit "application/json") ≡ false
        → status_of calls ≡ 405
        → envelope_mux (lit "text/plain") (lit "GET") calls
          ≡ envelope 405
              (lit "method_not_allowed")
              (lit "method not allowed; allowed: " ++ lit "GET"))
envelope_mux_lem_example = envelope_mux_lem (lit "text/plain") (lit "GET") calls

-- ===== src/Examples/AuthCases.antt =====
-- Runs of the signed cookie, the OAuth broker and the login.
use gigmcp.Base.{
  Text, List, [], ◌∷◌, ℕ, ◌+◌, ◌*◌, ◌<◌, ℤ, pos, true, comparable_text, if◌then◌else◌, Option, none,
  some, Result, ok, err, lit, ◌≡◌, ◌≢◌, ◌⊎◌, refl, ap, sym, arith, here, All, subst, first_where,
  text_beq, int_beq,
}
use gigmcp.Store.Types.{Db, AuthConfig, ConnectedAccount, Error, failure, second, unix, from_unix}
use gigmcp.Store.AuthConfigs.{get_auth_config}
use gigmcp.Store.Accounts.{get_connected_account, put_connected_account, stored_account}
use gigmcp.Auth.Scopes.{union_scopes, scopes_satisfied}
use gigmcp.Auth.Scopes.Union.{IsUnion, union_scopes-IsUnion}
use gigmcp.Auth.Flow.{Codec, cut_dot, is_past, sign_flow, verify_flow}
use gigmcp.Auth.Flow.Signing.{IsFaithful, IsUnforged, verify_flow-sign_flow}
use gigmcp.Auth.Broker.{
  Broker, FlowState, OauthConfig, Token, Callback, redirected, flow_of, account_of, landing,
  client_secret_of, load_config, oauth_config_for, granted_token, refresh_skew, is_fresh,
  load_account, ensure_fresh_token, start_handler, callback_handler,
}
use gigmcp.Auth.Broker.Freshness.{
  IsCached, IsGranted, ensure_fresh_token-IsEntitled, ensure_fresh_token-again,
}
use gigmcp.Auth.Broker.Connect.{Outcome, callback_handler-Outcome}
use gigmcp.Auth.Broker.Completion.{begun, connect-completes}
use gigmcp.Examples.StoreCases.{db}

union_scopes-IsUnion_example :
    IsUnion
      ((lit "b" ∷ lit "a" ∷ []) ∷ (lit "b" ∷ [] ∷ []) ∷ [])
      (union_scopes ((lit "b" ∷ lit "a" ∷ []) ∷ (lit "b" ∷ [] ∷ []) ∷ []))
union_scopes-IsUnion_example =
    union_scopes-IsUnion ((lit "b" ∷ lit "a" ∷ []) ∷ (lit "b" ∷ [] ∷ []) ∷ [])

-- A codec for one flow.
abbrev pub codec_of : {F : Type 0} → F → (F → ℤ) → Codec F
codec_of x expires = record {
  marshal = λ fs. ok (lit "f");
  unmarshal = λ payload. ok x;
  encode = λ t. t;
  decode = λ t. ok t;
  mac = λ t. lit "m";
  expires = expires;
}

pub cut_cookie : cut_dot (lit "f.m") ≡ some (lit "f", lit "m")
unfolding cut_dot
cut_cookie = refl

pub cookie-IsUnforged :
    {F : Type 0} (x : F) (expires : F → ℤ) → IsUnforged (codec_of x expires) (x ∷ []) (lit "f.m")
cookie-IsUnforged x expires payload w = here (ground (arith, cut_cookie, w.parted, w.carried))

abbrev google : AuthConfig
google = record {
  vendor = lit "google";
  authorize_url = lit "https://a";
  token_url = lit "https://t";
  client_id = lit "id";
  encrypted_client_secret = [];
  default_scopes = lit "email" ∷ [];
  pkce = true;
  mode = lit "byo";
}

abbrev flow : FlowState
flow =
    flow_of 0 (pos 7) (lit "google") (lit "/servers/x") (lit "email" ∷ lit "files" ∷ []) (lit "st")
      (lit "pk")

abbrev tokens : Token
tokens = record { access = lit "A"; refresh = lit "R"; expiry = 4000 * second; scope = none }

abbrev broker : Broker
broker = record {
  codec = codec_of flow (λ (fs : FlowState). fs.expires);
  redirect = lit "https://gig/cb";
  encrypt = λ t. ok t;
  decrypt = λ t. ok t;
  exchange = λ conf code verifier. ok tokens;
  refresh_grant = λ conf refresh. ok tokens;
  auth_code_url = λ conf state pkce. lit "https://a?state=st";
  config_fault = none;
  account_fault = none;
  write_fault = none;
}

abbrev old_account : ConnectedAccount
old_account = record {
  user_id = pos 7;
  vendor = lit "google";
  encrypted_refresh_token = lit "r";
  encrypted_access_token = lit "a";
  expires_at = 0;
  granted_scopes = [];
}

abbrev tables : Db
tables = record db { auth_configs = google ∷ []; connected_accounts = old_account ∷ [] }

abbrev payload : Text
payload = lit "f"

faithful : IsFaithful broker.codec payload
faithful = record { dotless = (omega arith, tt); decoded = refl; mac_decoded = refl }

sign_cookie : sign_flow broker.codec flow ≡ ok (lit "f.m")
unfolding sign_flow
sign_cookie = refl

verify_flow-sign_flow_example : verify_flow broker.codec second (lit "f.m") ≡ (
    if is_past (broker.codec.expires flow) second
    then err (failure (lit "flow expired"))
    else ok flow)
verify_flow-sign_flow_example =
    verify_flow-sign_flow broker.codec flow payload (lit "f.m") second refl refl faithful
      sign_cookie

google_found : get_auth_config (lit "google") tables ≡ ok google
unfolding get_auth_config first_where text_beq
google_found = refl

account_found : get_connected_account (pos 7) (lit "google") tables ≡ ok old_account
unfolding get_connected_account first_where text_beq int_beq
account_found = refl

granted : granted_token broker (lit "google") tables old_account ≡ ok tokens
unfolding granted_token load_config oauth_config_for client_secret_of get_auth_config first_where
    text_beq
granted = refl

ensure_fresh_token-again_example :
    let first = ensure_fresh_token broker 0 0 none (pos 7) (lit "google") tables tables in
    (first.0 ≡ ok (lit "A"))
    × ((t : ℕ) (flight : Option (Result Error Text))
          (grant : OauthConfig → Text → Result Error Token)
        → t + refresh_skew < from_unix (unix tokens.expiry)
        → ensure_fresh_token
            (record broker { refresh_grant = grant })
            t
            t
            flight
            (pos 7)
            (lit "google")
            first.1
            first.1
          ≡ (ok (lit "A"), first.1))
    × ((u : ℤ) (v : Text)
        → (u ≢ pos 7) ⊎ (v ≢ lit "google")
        → get_connected_account u v first.1 ≡ get_connected_account u v tables)
ensure_fresh_token-again_example =
    ensure_fresh_token-again broker (pos 7) (lit "google") tables old_account tokens (lit "A") 0
      refl refl account_found (omega arith) granted refl refl

-- An account whose token lasts.
abbrev lasting : ConnectedAccount
lasting = record old_account { expires_at = 4000 * second }

abbrev later_tables : Db
later_tables = record tables { connected_accounts = lasting ∷ [] }

token_got :
    ensure_fresh_token broker 0 0 none (pos 7) (lit "google") later_tables later_tables
    ≡ (ok (lit "a"), later_tables)
unfolding ensure_fresh_token load_account is_fresh get_connected_account first_where text_beq
    int_beq
token_got = refl

ensure_fresh_token-IsEntitled_example :
    (IsCached broker (pos 7) (lit "google") 0 later_tables (lit "a")
      × ◌≡◌ {A = Db} later_tables later_tables)
    ⊎ (IsCached broker (pos 7) (lit "google") 0 later_tables (lit "a")
        × ◌≡◌ {A = Db} later_tables later_tables)
    ⊎ IsGranted broker (pos 7) (lit "google") 0 later_tables (lit "a") later_tables
    ⊎ (◌≡◌ {A = Option (Result Error Text)} none (some (ok (lit "a")))
        × ◌≡◌ {A = Db} later_tables later_tables)
ensure_fresh_token-IsEntitled_example =
    ensure_fresh_token-IsEntitled broker (pos 7) (lit "google") 0 0 none later_tables later_tables
      (lit "a") later_tables token_got

abbrev answered : Callback
answered = record { cookie = some (lit "f.m"); error = []; state = lit "st"; code = lit "c" }

answer-IsUnforged : (v : Text) → answered.cookie ≡ some v → IsUnforged broker.codec (flow ∷ []) v
answer-IsUnforged v e =
    subst (λ (t : Text). IsUnforged broker.codec (flow ∷ []) t) (ground arith)
      (cookie-IsUnforged flow (λ (fs : FlowState). fs.expires))

callback_handler-Outcome_example :
    Outcome broker
      (flow ∷ [])
      second
      answered
      tables
      (callback_handler broker second answered tables).0
      (callback_handler broker second answered tables).1
callback_handler-Outcome_example =
    callback_handler-Outcome broker (flow ∷ []) second answered tables ((λ p h. refl), tt)
      answer-IsUnforged

asked_scopes :
    union_scopes ((lit "email" ∷ []) ∷ (lit "files" ∷ []) ∷ []) ≡ lit "email" ∷ lit "files" ∷ []
unfolding union_scopes text_beq
asked_scopes = refl

abbrev started_flow : FlowState
started_flow =
    begun broker 0 (pos 7) (lit "google") (lit "files" ∷ []) (lit "/servers/x") (lit "st")
      (lit "pk") [] google

read_back : broker.codec.unmarshal payload ≡ ok started_flow
read_back = ap (λ (scopes : List Text). ok (record flow { scopes = scopes })) (sym asked_scopes)

no_secret : client_secret_of broker google ≡ ok []
unfolding client_secret_of text_beq
no_secret = refl

abbrev got : ConnectedAccount
got = account_of started_flow tokens (lit "R") (lit "A")

connect-completes_example :
    (start_handler broker 0
        (pos 7)
        (lit "google")
        (lit "files" ∷ [])
        (lit "/servers/x")
        (ok (lit "st"))
        (lit "pk")
        tables
      ≡ redirected (lit "https://a?state=st") (record { value = lit "f.m"; max_age = 600 }))
    × (callback_handler broker second answered tables ≡ (
      redirected (landing (lit "/servers/x")) (record { value = []; max_age = 0 }),
      put_connected_account got tables,
    ))
    × (get_connected_account (pos 7) (lit "google") (put_connected_account got tables)
        ≡ ok (stored_account got))
    × (tokens.scope ≡ none
        → All (λ (s : Text). s ≢ []) (lit "files" ∷ [])
        → scopes_satisfied got.granted_scopes (lit "files" ∷ []) ≡ true)
connect-completes_example =
    connect-completes broker 0 (pos 7) (lit "google") (lit "files" ∷ []) (lit "/servers/x")
      (lit "st") (lit "pk") [] google payload refl no_secret refl second (lit "c") tokens (lit "R")
      (lit "A") read_back faithful refl (omega arith) refl (λ e. ground arith) refl refl tables
      tables (λ e. ground arith) google_found google_found refl

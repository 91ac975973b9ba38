-- ===== src/Examples/StoreCases.antt =====
-- Runs of the store.
use gigmcp.Base.{
  cut_prefix, Result, List, Text, [], ◌∷◌, ℕ, pos, false, ◌≡◌, ◌≢◌, AllLines, text_beq_iff, refl,
  lit, none, some, ok, arith, text_beq, ◌==◌, comparable_text, comparable_int, first_where,
}
use gigmcp.Gateway.Serve.{serve, refused}
use gigmcp.Gateway.Serve.Rotation.{serve-set_profile_token}
use gigmcp.Store.Types.{Db, Profile, Session, Credential}
use gigmcp.Store.Installs.Isolation.{Ended, uninstall_for_user-IsUninstalled}
use gigmcp.Store.Installs.{uninstall_for_user}
use gigmcp.Store.Profiles.{IsKeyed, set_profile_token, get_profile_by_slug_and_token_hash}
use gigmcp.Store.Sessions.Expiry.{IsRead, get_session-IsRead}

abbrev pub work : Profile
work = record {
  id = pos 1;
  slug = lit "work";
  name = lit "Work";
  user_id = pos 7;
  token_hash = lit "aa";
  meta_tools = false;
  created_at = 0;
}

abbrev home : Profile
home = record work { id = pos 2; slug = lit "home"; user_id = pos 8; token_hash = lit "bb" }

abbrev pub session : Session
session = record {
  token_hash = lit "cc";
  user_id = pos 7;
  created_at = 0;
  expires_at = 5_000_000_000;
  impersonating_user_id = none;
  impersonation_expires_at = none;
}

abbrev pub db : Db
db = record {
  servers = [];
  server_seq = 0;
  credentials = [];
  manifests = [];
  users = [];
  user_seq = 8;
  sessions = session ∷ [];
  profiles = work ∷ home ∷ [];
  profile_seq = 2;
  profile_servers =
      record { profile_id = pos 1; server_name = lit "echo" }
      ∷ record { profile_id = pos 2; server_name = lit "echo" }
      ∷ [];
  user_installs =
      record { user_id = pos 7; server = lit "echo" }
      ∷ record { user_id = pos 8; server = lit "echo" }
      ∷ [];
  user_disabled_tools = record { user_id = pos 7; server = lit "echo"; tool = lit "ping" } ∷ [];
  app_disabled_tools = [];
  auth_configs = [];
  audit = [];
  audit_seq = 0;
  connected_accounts = [];
}

uninstall_for_user-IsUninstalled_example :
    Ended (pos 7) (lit "echo") db (uninstall_for_user (pos 7) (lit "echo") none db)
uninstall_for_user-IsUninstalled_example =
    uninstall_for_user-IsUninstalled (pos 7) (lit "echo") none db

ids_differ : pos 2 ≢ pos 1
ids_differ e = ground arith

home_work : text_beq (lit "home") (lit "work") ≡ false
unfolding text_beq
home_work = refl

slugs_differ : lit "home" ≢ lit "work"
slugs_differ e = ground (arith, text_beq_iff (lit "home") (lit "work"), home_work)

pub db-IsKeyed : IsKeyed db
db-IsKeyed = record {
  ids = ((ids_differ, tt), (tt, tt));
  slugs = ((slugs_differ, tt), (tt, tt));
  below = ((1, refl, omega arith), ((2, refl, omega arith), tt));
}

-- The profile of the slug "work" now answers to the token "dd" only.
rotated : first_where (λ q. q.slug == lit "work") db.profiles ≡ some work
unfolding text_beq first_where
rotated = refl

get_session-IsRead_example : IsRead 6_000_000_000 (lit "cc") db
get_session-IsRead_example = get_session-IsRead 6_000_000_000 (lit "cc") db (tt, tt)

abbrev secret : Credential
secret = record {
  server = lit "echo";
  tenant = lit "7";
  encrypted_key = lit "box";
  inject_header = [];
  inject_format = [];
  placeholder = [];
  allowed_hosts = lit "a" ∷ lit "b" ∷ [];
}

hosts_lines : AllLines secret.allowed_hosts
hosts_lines = (((λ e. ground arith), tt), (((λ e. ground arith), tt), tt))

several : secret.allowed_hosts ≢ ([] ∷ [])
several e = ground arith

aa_dd : text_beq (lit "aa") (lit "dd") ≡ false
unfolding text_beq
aa_dd = refl

abbrev never_fails : Result Text (List ℕ)
never_fails = ok (10 ∷ [])

-- The hash is the identity here.
unlike :
    (token : Text) → cut_prefix (lit "Bearer aa") (lit "Bearer ") ≡ some token → token ≢ lit "dd"
unfolding cut_prefix
unlike token e same = ground (arith, text_beq_iff (lit "aa") (lit "dd"), aa_dd)

serve-set_profile_token_example :
    serve
      (λ t. t)
      (λ slug hash.
        get_profile_by_slug_and_token_hash slug hash (set_profile_token (pos 1) (lit "dd") db))
      (λ (p : Profile). never_fails)
      (lit "Bearer aa")
      (lit "work")
    ≡ refused 401
serve-set_profile_token_example =
    serve-set_profile_token (λ t. t) (λ p. never_fails) db work (lit "dd") (lit "Bearer aa")
      db-IsKeyed rotated unlike

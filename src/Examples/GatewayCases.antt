-- ===== src/Examples/GatewayCases.antt =====
-- Runs of the gateway: consent, credentials, profile runtimes, audit, sessions.
use gigmcp.Base.{
  List, [], ◌∷◌, ℤ, pos, false, ◌≡◌, ◌≢◌, refl, lit, if◌then◌else◌, none, ◌&&◌, Result, ok, err,
  arith, read_lines, split_lines, join_lines, text_beq, text_beq_iff, ◌==◌, comparable_text,
  comparable_int, Has, upsert, first_where, update_where, parse_int, format_int, IsInt64, int_beq,
  parse_unsigned, parse_digits, signed, format_nat, format_from, any, lookup, insert, delete,
  take_out,
}
use gigmcp.Store.Types.{
  ManifestRecord, Profile, Injection, Error, manifest_not_found, credential_not_found,
  profile_not_found,
}
use gigmcp.Store.Types.{Credential as Row}
use gigmcp.Store.Manifests.{
  put_manifest, get_manifest, record_consent, needs_reconsent, user_tenant,
}
use gigmcp.Gateway.SpawnGate.{requires_reconsent, placeholder_of, spawn_gate}
use gigmcp.Gateway.SpawnGate.Consent.{act, Action, put, consent, replay, replay-consent}
use gigmcp.Proxy.{Identity, Credential}
use gigmcp.Gateway.Resolver.{
  Sources, resolve_tenant, resolve, for_tenant, oauth2, static_credential, with_credential, sealed,
}
use gigmcp.Gateway.Resolver.Entitled.{IsEntitled, resolve-IsEntitled}
use gigmcp.Gateway.ProfileHost.{
  idle, step, enter, ended, commit, close, all_sandboxes, Event, request, launch, finish, shutdown,
  cleaned,
}
use gigmcp.Gateway.ProfileHost.{run as run_host}
use gigmcp.Gateway.ProfileHost.Cleanup.{IsAccounted}
use gigmcp.Gateway.ProfileHost.Quiet.{run-IsAccounted, run-quiet}
use gigmcp.Examples.StoreCases.{db, work}

abbrev pub inj : Injection
inj = record {
  id = lit "token";
  type = lit "api_key";
  provider = [];
  vendor = [];
  scopes = [];
  header = lit "Authorization";
  format = lit "Bearer {token}";
  env = [];
  placeholder = lit "gigph-1";
}

abbrev pub manifest_one : ManifestRecord
manifest_one = record {
  server = lit "echo";
  version = lit "1";
  digest = [];
  tier = lit "sealed";
  entrypoint = lit "/echo";
  display_name = [];
  category = [];
  description = [];
  allowed_hosts = lit "api.test" ∷ [];
  injections = inj ∷ [];
  tools = [];
  manifest_hash = lit "h1";
  consented_hash = [];
}

abbrev actions : List Action
actions = consent (lit "echo") (lit "h1") ∷ put manifest_one ∷ []

abbrev accepted : ManifestRecord
accepted = record manifest_one { consented_hash = lit "h1" }

-- An update after the consent is refused.
updated_refused :
    spawn_gate
      (lit "echo")
      (replay (put (record manifest_one { manifest_hash = lit "h2" }) ∷ actions) db)
    ≡ err requires_reconsent
unfolding spawn_gate needs_reconsent get_manifest replay act put_manifest record_consent any
    read_lines split_lines join_lines text_beq upsert first_where update_where
updated_refused = refl

at_echo : get_manifest (lit "echo") (replay actions db) ≡ ok accepted
unfolding get_manifest replay act put_manifest record_consent any read_lines split_lines join_lines
    text_beq upsert first_where update_where
at_echo = refl

unequal : text_beq (lit "h1") [] ≡ false
unfolding text_beq
unequal = refl

hashed : lit "h1" ≢ []
hashed e = ground (arith, text_beq_iff (lit "h1") [], unequal)

passes : spawn_gate (lit "echo") (replay actions db) ≡ ok (lit "gigph-1")
unfolding spawn_gate needs_reconsent get_manifest replay act put_manifest record_consent any
    read_lines split_lines join_lines text_beq upsert first_where update_where
passes = refl

replay-consent_example :
    Has (λ a. a ≡ consent (lit "echo") (lit "h1")) actions
    × (lit "gigph-1" ≡ placeholder_of (inj ∷ []))
replay-consent_example =
    replay-consent actions db accepted (lit "gigph-1") refl at_echo hashed passes

-- Profiles 1 and 2 are of user 7, whose secret for the server "echo" is "s3".
abbrev row : Row
row = record {
  server = lit "echo";
  tenant = lit "7";
  encrypted_key = lit "box";
  inject_header = lit "X-Old";
  inject_format = [];
  placeholder = [];
  allowed_hosts = lit "old.test" ∷ [];
}

abbrev profile_of : ℤ → Result Error Profile
profile_of id =
    if id == pos 1
    then ok work
    else if id == pos 2
    then ok (record work { id = pos 2 })
    else err profile_not_found

abbrev sources : Sources
sources = record {
  get_profile_by_id = profile_of;
  get_manifest = λ server. if server == lit "echo" then ok manifest_one else err manifest_not_found;
  get_credential = λ server tenant.
      if server == lit "echo" && tenant == lit "7" then ok row else err credential_not_found;
  decrypt = λ box. ok (lit "s3");
  ensure_fresh_token = none;
}

abbrev of_profile : Identity
of_profile = record { server = lit "echo"; tenant = lit "1" }

-- The hosts are the manifest's, not the row's.
abbrev granted : Credential
granted = record {
  real_secret = lit "s3";
  inject_header = lit "Authorization";
  inject_format = lit "Bearer {token}";
  placeholder = lit "gigph-1";
  allowed_hosts = lit "api.test" ∷ [];
}

resolves : resolve sources of_profile (lit "api.test") ≡ ok granted
unfolding resolve resolve_tenant for_tenant oauth2 static_credential with_credential sealed
    parse_int parse_unsigned parse_digits signed int_beq text_beq user_tenant format_int format_nat
    format_from
resolves = refl

resolve-IsEntitled_example :
    IsEntitled sources (lit "echo") (resolve_tenant profile_of (lit "1")).cred_tenant granted
resolve-IsEntitled_example = resolve-IsEntitled sources of_profile (lit "api.test") granted resolves

one_wide : IsInt64 (pos 1)
one_wide = omega arith

two_wide : IsInt64 (pos 2)
two_wide = omega arith

-- A spawn that a shutdown overtakes, and its cleanup, read from the end.
abbrev events : List Event
events = cleaned 10 ∷ finish (pos 1) ∷ shutdown ∷ launch (pos 1) 10 ∷ request (pos 1) ∷ []

run-IsAccounted_example : IsAccounted (run_host events idle)
run-IsAccounted_example = run-IsAccounted events

run-quiet_example : (run_host events idle).live ≡ []
unfolding run_host step int_beq enter ended commit close all_sandboxes lookup insert delete any
    take_out
run-quiet_example = run-quiet events refl refl refl

-- ===== src/Gateway/Resolver.antt =====
-- internal/gateway/resolver.go: the credential of a sandbox, assembled from the manifest of its
-- server and the secret of its tenant. The store answers by functions, as it may fail; the token
-- source is optional.
pub mod Entitled
use gigmcp.Base.{
  Text, List, [], ◌∷◌, ℤ, Bool, true, false, ◌&&◌, ◌==◌, ◌≡◌, comparable_text, if◌then◌else◌,
  Option, none, some, Result, ok, err, parse_int, lit,
}
use gigmcp.Store.Types.{
  Profile, ManifestRecord, Injection, Error, manifest_not_found, credential_not_found,
  connected_account_not_found,
}
use gigmcp.Store.Types.{Credential as Row}
use gigmcp.Store.Manifests.{user_tenant}
use gigmcp.Proxy.{Identity, Credential}

-- The methods of store.Store, vault.Vault and TokenEnsurer that the resolver calls.
pub record Sources : Type 0 where
  pub get_profile_by_id : ℤ → Result Error Profile
  pub get_manifest : Text → Result Error ManifestRecord
  pub get_credential : Text → Text → Result Error Row
  pub decrypt : Text → Result Error Text
  pub ensure_fresh_token : Option (ℤ → Text → Result Error Text)

pub record Tenant : Type 0 where
  pub cred_tenant : Text
  pub profile_id : Option ℤ
  pub user_id : Option ℤ

unfoldable pub resolve_tenant : (ℤ → Result Error Profile) → Text → Tenant
resolve_tenant get_profile tenant = elim (parse_int tenant) [
  | none ↦ record { cred_tenant = tenant; profile_id = none; user_id = none }
  | some pid ↦ elim (get_profile pid) [
    | err e ↦ record { cred_tenant = tenant; profile_id = none; user_id = none }
    | ok p ↦ record {
      cred_tenant = user_tenant p.user_id;
      profile_id = some pid;
      user_id = some p.user_id;
    }
  ]
]

-- A credential with nothing to inject, and one that the manifest tells how to inject.
unfoldable pub bare : ManifestRecord → Credential
bare rec = record {
  real_secret = [];
  inject_header = [];
  inject_format = [];
  placeholder = [];
  allowed_hosts = rec.allowed_hosts;
}

unfoldable pub sealed : Text → Injection → ManifestRecord → Credential
sealed secret inj rec = record {
  real_secret = secret;
  inject_header = inj.header;
  inject_format = inj.format;
  placeholder = inj.placeholder;
  allowed_hosts = rec.allowed_hosts;
}

abbrev pub no_injection : Injection
no_injection = record {
  id = [];
  type = [];
  provider = [];
  vendor = [];
  scopes = [];
  header = [];
  format = [];
  env = [];
  placeholder = [];
}

abbrev pub first_injection : List Injection → Injection
first_injection [] = no_injection
first_injection (inj ∷ more) = inj

abbrev pub is_oauth2 : List Injection → Bool
is_oauth2 [] = false
is_oauth2 (inj ∷ more) = inj.type == lit "oauth2"

abbrev pub vendor_of : Injection → Text
vendor_of inj = if inj.vendor == [] then inj.provider else inj.vendor

-- What follows the token's arrival.
unfoldable pub with_token : ManifestRecord → Result Error Text → Result Error Credential
unfolding bare sealed
with_token rec (ok token) = ok (sealed token (first_injection rec.injections) rec)
with_token rec (err connected_account_not_found) = ok (bare rec)
with_token rec (err e) = err e

-- The OAuth2 branch; `none` goes on to the stored credential.
unfoldable pub oauth2 : Sources → Text → Text → Option (Result Error Credential)
unfolding with_token
oauth2 s server tenant = elim s.ensure_fresh_token [
  | none ↦ none
  | some ensure ↦ elim (s.get_manifest server) [
    | err e ↦ none
    | ok rec ↦
        if is_oauth2 rec.injections
        then (elim (parse_int tenant) [
          | none ↦ none
          | some user ↦
              some (with_token rec (ensure user (vendor_of (first_injection rec.injections))))
        ])
        else none
  ]
]

-- No credential: the manifest alone.
unfoldable pub without_credential : Sources → Text → Result Error Credential
unfolding bare
without_credential s server = elim (s.get_manifest server) [
  | ok rec ↦ ok (bare rec)
  | err manifest_not_found ↦ err credential_not_found
  | err e ↦ err e
]

unfoldable pub with_credential : Sources → Text → Row → Result Error Credential
unfolding sealed
with_credential s server cred = elim (s.decrypt cred.encrypted_key) [
  | err e ↦ err e
  | ok secret ↦ elim (s.get_manifest server) [
    | ok rec ↦ ok (sealed secret (first_injection rec.injections) rec)
    | err manifest_not_found ↦ ok (record {
      real_secret = secret;
      inject_header = cred.inject_header;
      inject_format = cred.inject_format;
      placeholder = cred.placeholder;
      allowed_hosts = cred.allowed_hosts;
    })
    | err e ↦ err e
  ]
]

unfoldable pub static_credential : Sources → Text → Text → Result Error Credential
unfolding without_credential with_credential
static_credential s server tenant = elim (s.get_credential server tenant) [
  | ok cred ↦ with_credential s server cred
  | err credential_not_found ↦ without_credential s server
  | err e ↦ err e
]

unfoldable pub for_tenant : Sources → Text → Text → Result Error Credential
unfolding oauth2 static_credential
for_tenant s server tenant = elim (oauth2 s server tenant) [
  | some answer ↦ answer
  | none ↦ static_credential s server tenant
]

unfoldable pub resolve : Sources → Identity → Text → Result Error Credential
unfolding resolve_tenant for_tenant
resolve s id host =
    for_tenant s id.server (resolve_tenant s.get_profile_by_id id.tenant).cred_tenant

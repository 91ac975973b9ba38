-- ===== src/Gateway/Resolver/Entitled.antt =====
-- Where each part of a resolved credential comes from.
use gigmcp.Base.{
  Text, ℤ, true, ◌≡◌, inl, inr, ap, sym, ◌∙◌, comparable_text, some, Result, ok, err, parse_int,
  arith, Option-cases, Result-cases, Bool-cases, format_int, parse_int-format_int, IsInt64,
}
use gigmcp.Store.Types.{
  Profile, ManifestRecord, Error, manifest_not_found, credential_not_found,
  connected_account_not_found,
}
use gigmcp.Store.Types.{Credential as Row}
use gigmcp.Store.Manifests.{user_tenant}
use gigmcp.Proxy.{Identity, Credential}
use gigmcp.Gateway.Resolver.{
  Sources, resolve_tenant, bare, sealed, first_injection, is_oauth2, vendor_of, with_token, oauth2,
  without_credential, with_credential, static_credential, for_tenant, resolve,
}

-- A fresh token of the user for the vendor of the manifest.
pub record IsToken (s : Sources) (tenant : Text) (rec : ManifestRecord) (secret : Text)
    : Type 0 where
  pub ensure : ℤ → Text → Result Error Text
  pub user : ℤ
  pub present : s.ensure_fresh_token ≡ some ensure
  pub typed : is_oauth2 rec.injections ≡ true
  pub owner : parse_int tenant ≡ some user
  pub fresh : ensure user (vendor_of (first_injection rec.injections)) ≡ ok secret

-- The secret that is stored for the server and tenant.
pub record IsStored (s : Sources) (server tenant : Text) (row : Row) (secret : Text) : Type 0 where
  pub kept : s.get_credential server tenant ≡ ok row
  pub opened : s.decrypt row.encrypted_key ≡ ok secret

pub data IsEntitled (s : Sources) (server tenant : Text) (cred : Credential) : Type 0 where
  by_manifest :
      (rec : ManifestRecord) (known : s.get_manifest server ≡ ok rec) (secretless : cred ≡ bare rec)
      → IsEntitled s server tenant cred
  by_token :
      (rec : ManifestRecord) (secret : Text) (known : s.get_manifest server ≡ ok rec)
      (token : IsToken s tenant rec secret)
      (made : cred ≡ sealed secret (first_injection rec.injections) rec)
      → IsEntitled s server tenant cred
  by_row :
      (rec : ManifestRecord) (row : Row) (secret : Text) (known : s.get_manifest server ≡ ok rec)
      (stored : IsStored s server tenant row secret)
      (made : cred ≡ sealed secret (first_injection rec.injections) rec)
      → IsEntitled s server tenant cred
  by_legacy_row :
      (row : Row) (secret : Text) (unknown : s.get_manifest server ≡ err manifest_not_found)
      (stored : IsStored s server tenant row secret)
      (made : cred ≡ record {
        real_secret = secret;
        inject_header = row.inject_header;
        inject_format = row.inject_format;
        placeholder = row.placeholder;
        allowed_hosts = row.allowed_hosts;
      })
      → IsEntitled s server tenant cred

module _ (s : Sources) (server tenant : Text) (cred : Credential) where
  bare-IsEntitled : without_credential s server ≡ ok cred → IsEntitled s server tenant cred
  unfolding without_credential
  bare-IsEntitled e = elim (Result-cases (s.get_manifest server)) [
    | inl (rec, known) ↦ by_manifest rec known (ground (arith, known))
    | inr (manifest_not_found, unknown) ↦ ground (arith, unknown)
    | inr (f, unknown) ↦ ground (arith, unknown)
  ]

  row-IsEntitled :
      (row : Row)
      → s.get_credential server tenant ≡ ok row
      → with_credential s server row ≡ ok cred
      → IsEntitled s server tenant cred
  unfolding with_credential
  row-IsEntitled row kept e = elim (Result-cases (s.decrypt row.encrypted_key)) [
    | inr (f, shut) ↦ ground (arith, shut)
    | inl (secret, opened) ↦ elim (Result-cases (s.get_manifest server)) [
      | inl (rec, known) ↦
          by_row rec row secret known (record { kept = kept; opened = opened })
            (ground (arith, known, opened))
      | inr (manifest_not_found, unknown) ↦
          by_legacy_row row secret unknown (record { kept = kept; opened = opened })
            (ground (arith, unknown, opened))
      | inr (f, unknown) ↦ ground (arith, unknown, opened)
    ]
  ]

  static-IsEntitled : static_credential s server tenant ≡ ok cred → IsEntitled s server tenant cred
  unfolding static_credential
  static-IsEntitled e = elim (Result-cases (s.get_credential server tenant)) [
    | inl (row, kept) ↦ row-IsEntitled row kept (ground (arith, kept))
    | inr (credential_not_found, none_kept) ↦ bare-IsEntitled (ground (arith, none_kept))
    | inr (f, none_kept) ↦ ground (arith, none_kept)
  ]

  token-IsEntitled :
      (ensure : ℤ → Text → Result Error Text) (rec : ManifestRecord) (user : ℤ)
      → s.ensure_fresh_token ≡ some ensure
      → s.get_manifest server ≡ ok rec
      → is_oauth2 rec.injections ≡ true
      → parse_int tenant ≡ some user
      → with_token rec (ensure user (vendor_of (first_injection rec.injections))) ≡ ok cred
      → IsEntitled s server tenant cred
  unfolding with_token
  token-IsEntitled ensure rec user present known typed owner e =
      elim (Result-cases (ensure user (vendor_of (first_injection rec.injections)))) [
        | inl (secret, fresh) ↦
            by_token rec secret known
              (record {
                ensure = ensure;
                user = user;
                present = present;
                typed = typed;
                owner = owner;
                fresh = fresh;
              })
              (ground (arith, fresh))
        | inr (connected_account_not_found, stale) ↦ by_manifest rec known (ground (arith, stale))
        | inr (f, stale) ↦ ground (arith, stale)
      ]

  oauth2-IsEntitled :
      (answer : Result Error Credential)
      → oauth2 s server tenant ≡ some answer
      → answer ≡ ok cred
      → IsEntitled s server tenant cred
  unfolding oauth2
  oauth2-IsEntitled answer e is = elim (Option-cases s.ensure_fresh_token) [
    | inl absent ↦ ground (arith, absent)
    | inr (ensure, present) ↦ elim (Result-cases (s.get_manifest server)) [
      | inr (f, unknown) ↦ ground (arith, present, unknown)
      | inl (rec, known) ↦ elim (Bool-cases (is_oauth2 rec.injections)) [
        | inr other ↦ ground (arith, present, known, other)
        | inl typed ↦ elim (Option-cases (parse_int tenant)) [
          | inl legacy ↦ ground (arith, present, known, typed, legacy)
          | inr (user, owner) ↦
              token-IsEntitled ensure rec user present known typed owner
                (ground (arith, present, known, typed, owner))
        ]
      ]
    ]
  ]

-- A credential that the resolver returns is of one of four kinds. When its server has a manifest,
-- the hosts are those of the manifest, the way to inject is that of its first injection, and the
-- secret is a fresh token of the tenant's user for the manifest's vendor, the decrypted secret that
-- is stored for the server and tenant, or empty with nothing to inject. When there is no manifest,
-- a stored credential supplies all parts. There is none without either.
pub resolve-IsEntitled :
    (s : Sources) (id : Identity) (host : Text) (cred : Credential)
    → resolve s id host ≡ ok cred
    → IsEntitled s id.server (resolve_tenant s.get_profile_by_id id.tenant).cred_tenant cred
unfolding resolve for_tenant
resolve-IsEntitled s id host cred e =
    let tenant = (resolve_tenant s.get_profile_by_id id.tenant).cred_tenant in
    elim (Option-cases (oauth2 s id.server tenant)) [
      | inl on ↦ static-IsEntitled s id.server tenant cred (ground (arith, on))
      | inr (answer, at) ↦ oauth2-IsEntitled s id.server tenant cred answer at (ground (arith, at))
    ]

tenant_of_profile :
    (get_profile : ℤ → Result Error Profile) (a : ℤ) (p : Profile)
    → IsInt64 a
    → get_profile a ≡ ok p
    → (resolve_tenant get_profile (format_int a)).cred_tenant ≡ user_tenant p.user_id
unfolding resolve_tenant
tenant_of_profile get_profile a p wide at = ground (arith, parse_int-format_int a wide, at)

-- Two existing profiles of one user resolve alike, for every server and host.
pub resolve_same_owner :
    (s : Sources) (server host : Text) (a b : ℤ) (p q : Profile)
    → IsInt64 a
    → IsInt64 b
    → s.get_profile_by_id a ≡ ok p
    → s.get_profile_by_id b ≡ ok q
    → p.user_id ≡ q.user_id
    → resolve s (record { server = server; tenant = format_int a }) host
      ≡ resolve s (record { server = server; tenant = format_int b }) host
unfolding resolve
resolve_same_owner s server host a b p q wa wb at_a at_b same = ap (for_tenant s server) (
    tenant_of_profile s.get_profile_by_id a p wa at_a
    ∙ ap user_tenant same
    ∙ sym (tenant_of_profile s.get_profile_by_id b q wb at_b))

-- ===== src/Store/Manifests.antt =====
-- internal/store/manifests.go and credentials.go: the manifest that a user consented to, and the
-- secrets of a tenant.
pub mod Secrets
pub mod Refinement
use gigmcp.Base.{
  Text, List, [], ◌∷◌, ◌++◌, ℤ, pos, ℕ, ◌+◌, Bool, true, false, ◌&&◌, ◌||◌, not, ◌==◌,
  comparable_text, any, where_, map, first_where, delete_where, update_where, upsert, if◌then◌else◌,
  Option, none, some, Result, ok, err, format_int, join_lines, read_lines,
}
use gigmcp.Store.Types.{
  Db, ManifestRecord, Credential, Error, manifest_not_found, credential_not_found,
}
use gigmcp.Store.Installs.{text_le, order_by}

unfoldable pub needs_reconsent : ManifestRecord → Bool
needs_reconsent m = not (m.manifest_hash == m.consented_hash)

abbrev pub of_server : Text → ManifestRecord → Bool
of_server server m = m.server == server

-- Hosts are kept in a column, one on a line. json.Unmarshal of what json.Marshal wrote gives the
-- injections and tools back.
abbrev pub stored_manifest : ManifestRecord → Text → ManifestRecord
stored_manifest m consented = record m {
  allowed_hosts = read_lines (join_lines m.allowed_hosts);
  consented_hash = consented;
}

unfoldable pub put_manifest : ManifestRecord → Db → Db
put_manifest m db = record db {
  manifests =
      upsert (of_server m.server) (λ old. stored_manifest m old.consented_hash)
        (stored_manifest m []) db.manifests;
}

abbrev pub found_manifest : Option ManifestRecord → Result Error ManifestRecord
found_manifest none = err manifest_not_found
found_manifest (some m) = ok m

unfoldable pub get_manifest : Text → Db → Result Error ManifestRecord
get_manifest server db = found_manifest (first_where (of_server server) db.manifests)

-- ORDER BY server
unfoldable pub list_manifests : Db → List ManifestRecord
unfolding order_by
list_manifests db = order_by (λ (m : ManifestRecord). m.server) db.manifests

unfoldable pub record_consent : Text → Text → Db → Result Error (Unit {0}) × Db
unfolding any
record_consent server hash db = (
  if any (of_server server) db.manifests then ok tt else err manifest_not_found,
  record db {
    manifests =
        update_where (of_server server) (λ m. record m { consented_hash = hash }) db.manifests;
  },
)

unfoldable pub delete_manifest : Text → Db → Db
delete_manifest server db = record db { manifests = delete_where (of_server server) db.manifests }

unfoldable pub delete_server : Text → Db → Db
delete_server name db = record db { servers = delete_where (λ s. s.name == name) db.servers }

unfoldable pub user_tenant : ℤ → Text
user_tenant id = format_int id

abbrev pub of_tenant : Text → Text → Credential → Bool
of_tenant server tenant c = c.server == server && c.tenant == tenant

abbrev pub stored_credential : Credential → Credential
stored_credential c = record c { allowed_hosts = read_lines (join_lines c.allowed_hosts) }

unfoldable pub put_credential : Credential → Db → Db
put_credential c db = record db {
  credentials =
      upsert (of_tenant c.server c.tenant) (λ old. stored_credential c) (stored_credential c)
        db.credentials;
}

abbrev pub found_credential : Option Credential → Result Error Credential
found_credential none = err credential_not_found
found_credential (some c) = ok c

unfoldable pub get_credential : Text → Text → Db → Result Error Credential
get_credential server tenant db =
    found_credential (first_where (of_tenant server tenant) db.credentials)

-- ORDER BY server
unfoldable pub insert_by_server : Credential → List Credential → List Credential
unfolding text_le
insert_by_server c [] = c ∷ []
insert_by_server c (d ∷ l) =
    if text_le c.server d.server then c ∷ d ∷ l else d ∷ insert_by_server c l

unfoldable pub by_server : List Credential → List Credential
unfolding insert_by_server
by_server [] = []
by_server (c ∷ l) = insert_by_server c (by_server l)

-- The SELECT leaves the ciphertext out.
abbrev pub without_key : Credential → Credential
without_key c = record c { encrypted_key = [] }

unfoldable pub list_credentials_by_tenant : Text → Db → List Credential
unfolding by_server
list_credentials_by_tenant tenant db =
    map (λ (c : Credential). without_key c)
      (by_server (where_ (λ c. c.tenant == tenant) db.credentials))

-- Whether a row was deleted.
unfoldable pub delete_credential : Text → Text → Db → Bool × Db
unfolding any
delete_credential server tenant db = (
  any (of_tenant server tenant) db.credentials,
  record db { credentials = delete_where (of_tenant server tenant) db.credentials },
)

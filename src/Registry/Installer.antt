-- ===== src/Registry/Installer.antt =====
-- internal/registry/installer.go: Install on the store, with consent and placeholders. What the
-- index, the schema package, the file system and the puller answer are inputs.
pub mod Upgrade
pub mod Placeholders
use gigmcp.Base.{
  Text, List, [], ◌∷◌, Bool, true, false, not, ◌&&◌, ◌||◌, ◌==◌, comparable_text, if◌then◌else◌,
  Option, none, some, Result, ok, err,
}
use gigmcp.Store.Types.{Db, Server, Injection, ToolEntry, ManifestRecord, Error, manifest_not_found}
use gigmcp.Store.Manifests.{
  put_manifest, get_manifest, record_consent, delete_manifest, delete_server,
}
use gigmcp.Store.Accounts.{ensure_server}

-- A credential of schema.Manifest.
pub record Descriptor : Type 0 where
  pub id : Text
  pub type : Text
  pub provider : Text
  pub vendor : Text
  pub scopes : List Text
  pub header : Text
  pub format : Text
  pub env : Text

-- The fields of schema.Manifest that the installer reads, with its RuntimeHash.
pub record Manifest : Type 0 where
  pub name : Text
  pub version : Text
  pub digest : Text
  pub tier : Text
  pub entrypoint : Text
  pub display_name : Text
  pub category : Text
  pub description : Text
  pub egress : List Text
  pub credentials : List Descriptor
  pub tools : List ToolEntry
  pub toolpack : Bool
  pub runtime_hash : Text

-- What the world answers: whether the artifact is on disk, whether pulling and checking it
-- succeeded, and what each call of newPlaceholder returned.
pub record World : Type 0 where
  pub on_disk : Bool
  pub pulled : Option Text
  pub random : List (Option Text)
  pub stage_dir : Text
  pub dest : Text

pub data Failure : Type 0 where
  pull : Text → Failure
  no_entropy : Failure
  store : Error → Failure

-- priorPH: a later injection of the same id overwrites an earlier one.
unfoldable pub prior_placeholder : Text → List Injection → Option Text
prior_placeholder id [] = none
prior_placeholder id (p ∷ prior) = elim (prior_placeholder id prior) [
  | some ph ↦ some ph
  | none ↦ if p.id == id && not (p.placeholder == []) then some p.placeholder else none
]

abbrev pub injection_of : Descriptor → Text → Injection
injection_of c ph = record {
  id = c.id;
  type = c.type;
  provider = c.provider;
  vendor = c.vendor;
  scopes = c.scopes;
  header = c.header;
  format = c.format;
  env = c.env;
  placeholder = ph;
}

abbrev pub cons : Injection → Option (List Injection) → Option (List Injection)
cons inj none = none
cons inj (some l) = some (inj ∷ l)

unfoldable pub build_injections :
    List Descriptor → List Injection → List (Option Text) → Option (List Injection)
unfolding prior_placeholder
build_injections [] prior random = some []
build_injections (c ∷ cs) prior random = elim (prior_placeholder c.id prior) [
  | some ph ↦ cons (injection_of c ph) (build_injections cs prior random)
  | none ↦ elim random [
    | some ph ∷ more ↦ cons (injection_of c ph) (build_injections cs prior more)
    | _ ↦ none
  ]
]

abbrev pub manifest_record : Manifest → List Injection → ManifestRecord
manifest_record m injections = record {
  server = m.name;
  version = m.version;
  digest = m.digest;
  tier = m.tier;
  entrypoint = m.entrypoint;
  display_name = m.display_name;
  category = m.category;
  description = m.description;
  allowed_hosts = m.egress;
  injections = injections;
  tools = m.tools;
  manifest_hash = m.runtime_hash;
  consented_hash = [];
}

-- `hadPrior` and `prior` in one.
abbrev pub prior_of : Manifest → Db → Option ManifestRecord
prior_of m db = elim (get_manifest m.name db) [ ok rec ↦ some rec | err e ↦ none ]

abbrev pub prior_injections : Option ManifestRecord → List Injection
prior_injections none = []
prior_injections (some rec) = rec.injections

unfoldable pub is_first_consent : Option ManifestRecord → Bool
is_first_consent none = true
is_first_consent (some rec) = rec.consented_hash == []

unfoldable pub maybe_consent :
    Bool → Text → Text → Option ManifestRecord → Db → Result Error (Unit {0}) × Db
unfolding is_first_consent
maybe_consent auto name hash prior db =
    if auto || is_first_consent prior then record_consent name hash db else (ok tt, db)

unfoldable pub ensure_row : Manifest → World → Db → Option Server × Db
ensure_row m w db =
    if m.toolpack
    then ensure_server m.name m.entrypoint w.stage_dir db
    else ensure_server m.name w.dest [] db

abbrev pub is_same_install : Manifest → World → Option ManifestRecord → Bool
is_same_install m w none = false
is_same_install m w (some rec) =
    rec.version == m.version && rec.manifest_hash == m.runtime_hash && w.on_disk

-- Put, row and consent stand in the order of the code on either path.
unfoldable pub refresh :
    Bool → Manifest → World → Option ManifestRecord → Db → Result Failure (Unit {0}) × Db
unfolding ensure_row build_injections maybe_consent
refresh auto m w prior db =
    let rowed = (ensure_row m w db).1 in
    elim (build_injections m.credentials (prior_injections prior) w.random) [
      | none ↦ (err no_entropy, rowed)
      | some injections ↦ (
        ok tt,
        (maybe_consent auto m.name m.runtime_hash prior
            (put_manifest (manifest_record m injections) rowed)).1,
      )
    ]

unfoldable pub fresh_install :
    Bool → Manifest → World → Option ManifestRecord → Db → Result Failure (Unit {0}) × Db
unfolding ensure_row build_injections maybe_consent
fresh_install auto m w prior db = elim w.pulled [
  | some e ↦ (err (pull e), db)
  | none ↦ elim (build_injections m.credentials (prior_injections prior) w.random) [
    | none ↦ (err no_entropy, db)
    | some injections ↦ (
      ok tt,
      (maybe_consent auto m.name m.runtime_hash prior
          (ensure_row m w (put_manifest (manifest_record m injections) db)).1).1,
    )
  ]
]

-- Install of the manifest that the index resolved and that is valid. The store's own consent call
-- finds the row that was just put.
unfoldable pub install : Bool → Manifest → World → Db → Result Failure (Unit {0}) × Db
unfolding refresh fresh_install
install auto m w db =
    if is_same_install m w (prior_of m db)
    then refresh auto m w (prior_of m db) db
    else fresh_install auto m w (prior_of m db) db

-- ===== src/Api/Catalog.antt =====
-- internal/api/registry.go: the catalog of the registry, memoized for five minutes. The verified
-- index is a value of the schema package, and fetching it may fail.
pub mod Current
use gigmcp.Base.{
  Text, List, [], ◌∷◌, ℕ, ◌+◌, ◌*◌, ◌<◌, ◌≤◌, Bool, true, false, ◌&&◌, ◌==◌, comparable_text, ltb,
  map, if◌then◌else◌, Option, none, some, Result, ok, err, ◌≡◌, ◌⊎◌, inl, inr, refl, arith,
  Bool-cases,
}
use gigmcp.Store.Types.{Error, second}
use gigmcp.Store.Installs.{order_by}
use gigmcp.Api.Types.{Reply, failed, wrote}

-- What the handler reads of a manifest, and of a server in the index.
pub record Shown : Type 0 where
  pub description : Text
  pub display_name : Text

pub record Listed : Type 0 where
  pub latest : Text
  pub versions : Text → Option Shown

abbrev pub Index : Type 0
Index = List (Text × Listed)

pub record IndexCache : Type 0 where
  pub index : Option Index
  pub fetched_at : ℕ

pub record RegistryServerJson : Type 0 where
  pub name : Text
  pub display_name : Text
  pub description : Text
  pub latest : Text

abbrev pub registry_cache_ttl : ℕ
registry_cache_ttl = 5 * (60 * second)

-- time.Since(c.fetchedAt) < registryCacheTTL
unfoldable pub is_current : ℕ → IndexCache → Bool
is_current now c = ltb now (c.fetched_at + registry_cache_ttl)

abbrev pub memoized : ℕ → Result Error Index → IndexCache → Result Error Index × IndexCache
memoized done (ok ix) c = (ok ix, record { index = some ix; fetched_at = done })
memoized done (err e) c = (err e, c)

-- At one time, with what a fetch would answer by another.
unfoldable pub cached_index :
    (now done : ℕ) → Result Error Index → IndexCache → Result Error Index × IndexCache
unfolding is_current
cached_index now done fetch c = elim c.index [
  | none ↦ memoized done fetch c
  | some ix ↦ if is_current now c then (ok ix, c) else memoized done fetch c
]

-- A latest version that is not in the index shows as empty texts.
abbrev pub shown_or_empty : Option Shown → Shown
shown_or_empty none = record { description = []; display_name = [] }
shown_or_empty (some m) = m

unfoldable pub registry_entry : Text × Listed → RegistryServerJson
registry_entry (name, srv) =
    let m = shown_or_empty (srv.versions srv.latest) in
    record {
      name = name;
      display_name = m.display_name;
      description = m.description;
      latest = srv.latest;
    }

abbrev pub catalog_reply : Result Error Index → Reply (List RegistryServerJson)
catalog_reply (err e) = failed 502
catalog_reply (ok ix) =
    wrote 200 (order_by (λ (r : RegistryServerJson). r.name) (map registry_entry ix))

-- With no registry, or with one that answers so.
unfoldable pub handle_registry_servers :
    (now done : ℕ)
    → Option (Result Error Index)
    → IndexCache
    → Reply (List RegistryServerJson) × IndexCache
unfolding cached_index registry_entry
handle_registry_servers now done none c = (failed 501, c)
handle_registry_servers now done (some fetch) c =
    let got = cached_index now done fetch c in (catalog_reply got.0, got.1)

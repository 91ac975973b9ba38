-- ===== src/Gateway/Bundle.antt =====
-- internal/gateway/profilehost.go: spawnProfile and exposeFor, which launch the bundle of a profile
-- with the tools that its owner left on. The store, the launch and the aggregator answer by
-- functions, as they may fail.
pub mod Exposure
use gigmcp.Base.{
  Text, List, [], ◌∷◌, ◌++◌, ℕ, ℤ, Bool, true, false, not, ◌==◌, comparable_text, if◌then◌else◌,
  Option, none, some, Result, ok, err, any, where_, map, first_where, format_int,
}
use gigmcp.Store.Types.{Profile, Server, ManifestRecord, ToolEntry, Error, manifest_not_found}
use gigmcp.Gateway.ProfileHost.{Sandbox}

pub record Backend : Type 0 where
  pub name : Text
  pub sandbox : Sandbox
  -- `none` is the nil map, which exposes every tool
  pub expose : Option (List Text)

pub record Sources : Type 0 where
  pub get_profile_servers : ℤ → Result Error (List Text)
  pub list_servers : Result Error (List Server)
  pub is_user_installed : ℤ → Text → Result Error Bool
  pub get_manifest : Text → Result Error ManifestRecord
  pub list_user_disabled_tools : ℤ → Text → Result Error (List Text)
  pub spawn : Server → Text → Result Text Sandbox
  -- gateway.New; `some` is its error
  pub refuses : List Backend → Option Text

pub data Failure : Type 0 where
  store expose : Error → Failure
  spawn aggregator : Text → Failure

-- On an error no tool counts as disabled.
abbrev pub or_none : Result Error (List Text) → List Text
or_none (ok names) = names
or_none (err e) = []

abbrev pub tool_name : ToolEntry → Text
tool_name tl = tl.name

abbrev pub exposed : List ToolEntry → List Text → List Text
exposed tools disabled = where_ (λ t. not (any (λ d. d == t) disabled)) (map tool_name tools)

-- `ok none` says to skip the server.
unfoldable pub expose_for : Sources → Profile → Text → Result Error (Option (Option (List Text)))
unfolding any where_
expose_for s p server = elim (s.is_user_installed p.user_id server) [
  | err e ↦ err e
  | ok false ↦ ok none
  | ok true ↦ elim (s.get_manifest server) [
    | ok rec ↦
        ok (some (some (exposed rec.tools (or_none (s.list_user_disabled_tools p.user_id server)))))
    | err manifest_not_found ↦ ok (some none)
    | err e ↦ err e
  ]
]

-- What spawnProfile did: its result, the sandboxes that were launched, and those whose cleanup it
-- ran.
pub record Spawned : Type 0 where
  pub result : Result Failure (List Backend)
  pub launched : List Sandbox
  pub cleaned : List Sandbox

abbrev pub failed : Failure → List Sandbox → List Sandbox → Spawned
failed e launched cleanups = record { result = err e; launched = launched; cleaned = cleanups }

abbrev pub finished : Sources → List Backend → List Sandbox → List Sandbox → Spawned
finished s backends launched cleanups = elim (s.refuses backends) [
  | some e ↦ failed (aggregator e) launched cleanups
  | none ↦ record { result = ok backends; launched = launched; cleaned = [] }
]

-- The loop over the names, with the backends, the launches and the cleanups so far. byName holds the
-- servers by their names, which are unique.
unfoldable pub spawn_bundle :
    Sources
    → Profile
    → List Server
    → List Text
    → List Backend
    → List Sandbox
    → List Sandbox
    → Spawned
unfolding expose_for first_where
spawn_bundle s p all [] backends launched cleanups = finished s backends launched cleanups
spawn_bundle s p all (n ∷ names) backends launched cleanups =
    elim (first_where (λ (srv : Server). srv.name == n) all) [
      | none ↦ spawn_bundle s p all names backends launched cleanups
      | some srv ↦ elim (expose_for s p n) [
        | err e ↦ failed (expose e) launched cleanups
        | ok none ↦ spawn_bundle s p all names backends launched cleanups
        | ok (some tools) ↦ elim (s.spawn srv (format_int p.id)) [
          | err e ↦ failed (spawn e) launched cleanups
          | ok box ↦
              spawn_bundle s p all names
                (backends ++ record { name = srv.name; sandbox = box; expose = tools } ∷ [])
                (launched ++ box ∷ []) (cleanups ++ box ∷ [])
        ]
      ]
    ]

unfoldable pub spawn_profile : Sources → Profile → Spawned
unfolding spawn_bundle
spawn_profile s p = elim (s.get_profile_servers p.id) [
  | err e ↦ failed (store e) [] []
  | ok names ↦ elim s.list_servers [
    | err e ↦ failed (store e) [] []
    | ok all ↦ spawn_bundle s p all names [] [] []
  ]
]

-- ===== src/Gateway/SpawnGate/Consent.antt =====
-- No manifest takes effect before its very hash was accepted.
use gigmcp.Base.{
  Text, List, [], ◌∷◌, ◌==◌, ◌≡◌, ◌≢◌, ◌⊎◌, inl, inr, refl, sym, ◌∙◌, comparable_text, first_where,
  update_where, upsert, some, ok, arith, text_beq_iff, All, Has, here, there, All-map,
  All-delete_where, All-first_where, Bool-cases, Option-cases,
}
use gigmcp.Store.Types.{Db, ManifestRecord}
use gigmcp.Store.Manifests.{
  needs_reconsent, of_server, stored_manifest, put_manifest, get_manifest, record_consent,
  delete_manifest,
}
use gigmcp.Gateway.SpawnGate.{placeholder_of, spawn_gate}

-- What administrators do to the manifests: the installer puts and deletes, a user accepts.
pub data Action : Type 0 where
  put : ManifestRecord → Action
  consent : Text → Text → Action
  remove : Text → Action

unfoldable pub act : Action → Db → Db
act (put m) db = put_manifest m db
act (consent server hash) db = (record_consent server hash db).1
act (remove server) db = delete_manifest server db

-- The latest action stands first.
unfoldable pub replay : List Action → Db → Db
unfolding act
replay [] db = db
replay (a ∷ earlier) db = act a (replay earlier db)

abbrev IsAccepted : List Action → ManifestRecord → Type 0
IsAccepted actions m =
    (m.consented_hash ≡ []) ⊎ Has (λ a. a ≡ consent m.server m.consented_hash) actions

IsAccepted-later :
    (a : Action) (actions : List Action) (m : ManifestRecord)
    → IsAccepted actions m
    → IsAccepted (a ∷ actions) m
IsAccepted-later a actions m (inl e) = inl e
IsAccepted-later a actions m (inr h) = inr (there h)

same_server :
    {actions : List Action} {hash a b : Text}
    → Has (λ x. x ≡ consent a hash) actions
    → a ≡ b
    → Has (λ x. x ≡ consent b hash) actions
same_server {actions} {hash} h e = rw (sym e) h

put-IsAccepted :
    (m : ManifestRecord) (actions : List Action) (rows : List ManifestRecord)
    → All (IsAccepted actions) rows
    → All (IsAccepted actions) (
        upsert
          (of_server m.server)
          (λ old. stored_manifest m old.consented_hash)
          (stored_manifest m [])
          rows)
unfolding upsert
put-IsAccepted m actions [] h = (inl refl, tt)
put-IsAccepted m actions (row ∷ rows) (now, h) = elim (Bool-cases (row.server == m.server)) [
  | inl e ↦ rw e (
    elim now [
      | inl never ↦ inl never
      | inr had ↦ inr (same_server had ((text_beq_iff row.server m.server).0 e))
    ],
    h,
  )
  | inr e ↦ rw e (now, put-IsAccepted m actions rows h)
]

consent-IsAccepted :
    (server hash : Text) (actions : List Action) (rows : List ManifestRecord)
    → All (IsAccepted actions) rows
    → All
        (IsAccepted (consent server hash ∷ actions))
        (update_where (of_server server) (λ m. record m { consented_hash = hash }) rows)
unfolding update_where
consent-IsAccepted server hash actions [] h = tt
consent-IsAccepted server hash actions (row ∷ rows) (now, h) =
    elim (Bool-cases (row.server == server)) [
      | inl e ↦ rw e (
        inr (here (rw ((text_beq_iff row.server server).0 e) refl)),
        consent-IsAccepted server hash actions rows h,
      )
      | inr e ↦ rw e (
        IsAccepted-later (consent server hash) actions row now,
        consent-IsAccepted server hash actions rows h,
      )
    ]

replay-IsAccepted :
    (actions : List Action) (db : Db)
    → db.manifests ≡ []
    → All (IsAccepted actions) (replay actions db).manifests
unfolding replay put_manifest record_consent delete_manifest
replay-IsAccepted [] db h = rw h tt
replay-IsAccepted (put m ∷ earlier) db h =
    put-IsAccepted m (put m ∷ earlier) (replay earlier db).manifests (
      All-map _ _ (replay earlier db).manifests (IsAccepted-later (put m) earlier)
        (replay-IsAccepted earlier db h))
replay-IsAccepted (consent s c ∷ earlier) db h =
    consent-IsAccepted s c earlier (replay earlier db).manifests (replay-IsAccepted earlier db h)
replay-IsAccepted (remove s ∷ earlier) db h =
    All-delete_where (λ (m : ManifestRecord). m.server) (IsAccepted (remove s ∷ earlier))
      (of_server s) (replay earlier db).manifests
      (All-map _ _ (replay earlier db).manifests (IsAccepted-later (remove s) earlier)
        (replay-IsAccepted earlier db h))

found_row :
    (server : Text) (db : Db) (m : ManifestRecord)
    → get_manifest server db ≡ ok m
    → first_where (of_server server) db.manifests ≡ some m
unfolding get_manifest
found_row server db m e = elim (Option-cases (first_where (of_server server) db.manifests)) [
  | inl missing ↦ ground (arith, missing)
  | inr (r, at) ↦ at ∙ ground (arith, at)
]

-- From a table without manifests: a server with a manifest of a hash that is not empty is launched
-- only if that very hash was accepted for it by an earlier action, and then with the placeholder of
-- the manifest.
pub replay-consent :
    (actions : List Action) (db : Db) (m : ManifestRecord) (placeholder : Text)
    → db.manifests ≡ []
    → get_manifest m.server (replay actions db) ≡ ok m
    → m.manifest_hash ≢ []
    → spawn_gate m.server (replay actions db) ≡ ok placeholder
    → Has (λ a. a ≡ consent m.server m.manifest_hash) actions
      × (placeholder ≡ placeholder_of m.injections)
unfolding spawn_gate needs_reconsent
replay-consent actions db m placeholder empty at hashed passes = (
  elim (All-first_where (λ (r : ManifestRecord). r.server) (IsAccepted actions) (of_server m.server)
      (replay actions db).manifests m (replay-IsAccepted actions db empty) row) [
        | inl never ↦ absurd (hashed (accepted ∙ never))
        | inr had ↦ rw accepted had
      ],
  ground (arith, at),
)
  where
    row : first_where (of_server m.server) (replay actions db).manifests ≡ some m
    row = found_row m.server (replay actions db) m at

    accepted : m.manifest_hash ≡ m.consented_hash
    accepted = ground (arith, at, text_beq_iff m.manifest_hash m.consented_hash)

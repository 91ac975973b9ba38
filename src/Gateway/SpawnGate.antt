-- ===== src/Gateway/SpawnGate.antt =====
-- cmd/gateway/main.go: the Spawn function of the profile host looks a server's manifest up before
-- it launches a sandbox, and refuses a manifest whose hash the user has not accepted.
pub mod Consent
use gigmcp.Base.{
  Text, List, [], ◌∷◌, true, false, ◌==◌, ◌≡◌, ◌≢◌, ◌⊎◌, inl, inr, refl, sym, ap, ◌∙◌,
  comparable_text, first_where, update_where, upsert, if◌then◌else◌, Option, none, some, Result, ok,
  err, arith, text_beq_iff, first_where-upsert_self, first_where-upsert_other, All, Has, here,
  there, All-map, All-delete_where, All-first_where, Bool-cases, Option-cases,
}
use gigmcp.Store.Types.{Db, ManifestRecord, Injection, Error, manifest_not_found}
use gigmcp.Store.Manifests.{
  needs_reconsent, of_server, stored_manifest, put_manifest, found_manifest, get_manifest,
  record_consent, delete_manifest,
}

pub data Refusal : Type 0 where
  requires_reconsent : Refusal
  manifest : Error → Refusal

-- rec.Injections[0].Placeholder, if there is one
abbrev pub placeholder_of : List Injection → Text
placeholder_of [] = []
placeholder_of (inj ∷ more) = inj.placeholder

-- The placeholder that the sandbox is launched with.
abbrev pub gate : Result Error ManifestRecord → Result Refusal Text
gate looked_up = elim looked_up [
  | ok rec ↦
      if needs_reconsent rec then err requires_reconsent else ok (placeholder_of rec.injections)
  | err manifest_not_found ↦ ok []
  | err e ↦ err (manifest e)
]

unfoldable pub spawn_gate : Text → Db → Result Refusal Text
spawn_gate server db = gate (get_manifest server db)

-- The hash that was accepted for a server; "" is never.
abbrev pub consented : Text → Db → Text
consented server db = elim (first_where (of_server server) db.manifests) [
  | none ↦ []
  | some m ↦ m.consented_hash
]

server_self : (m : ManifestRecord) → of_server m.server m ≡ true
server_self m = (text_beq_iff m.server m.server).1 refl

-- The row of a manifest that was put.
pub put_manifest-row :
    (m : ManifestRecord) (db : Db)
    → first_where (of_server m.server) (put_manifest m db).manifests
      ≡ some (stored_manifest m (consented m.server db))
unfolding put_manifest
put_manifest-row m db =
    first_where-upsert_self (of_server m.server) (λ old. stored_manifest m old.consented_hash)
      (stored_manifest m []) db.manifests (server_self m) (λ old h. server_self m)
    ∙ either (first_where (of_server m.server) db.manifests)
  where
    either :
        (old : Option ManifestRecord)
        → some
            (elim old [ none ↦ stored_manifest m [] | some o ↦ stored_manifest m o.consented_hash ])
          ≡ some (stored_manifest m (elim old [ none ↦ [] | some o ↦ o.consented_hash ]))
    either none = refl
    either (some o) = refl

gate_put :
    (m : ManifestRecord) (db : Db)
    → spawn_gate m.server (put_manifest m db) ≡ (
        if m.manifest_hash == consented m.server db
        then ok (placeholder_of m.injections)
        else err requires_reconsent)
unfolding spawn_gate get_manifest put_manifest needs_reconsent
gate_put m db = elim (Option-cases (first_where (of_server m.server) db.manifests)) [
  | inl e ↦ ground (arith, e, row_after)
  | inr (old, e) ↦ ground (arith, e, row_after)
]
  where
    row_after :
        first_where (of_server m.server) (put_manifest m db).manifests
        ≡ some (elim (first_where (of_server m.server) db.manifests) [
          | none ↦ stored_manifest m []
          | some old ↦ stored_manifest m old.consented_hash
        ])
    row_after =
        first_where-upsert_self (of_server m.server) (λ old. stored_manifest m old.consented_hash)
          (stored_manifest m []) db.manifests (server_self m) (λ old h. server_self m)

gate_other :
    (m : ManifestRecord) (db : Db) (s : Text)
    → s ≢ m.server
    → spawn_gate s (put_manifest m db) ≡ spawn_gate s db
unfolding spawn_gate get_manifest put_manifest
gate_other m db s ne =
    ap (λ (row : Option ManifestRecord). gate (found_manifest row))
      (first_where-upsert_other (of_server m.server) (of_server s)
        (λ old. stored_manifest m old.consented_hash) (stored_manifest m []) db.manifests apart
        (λ old h. apart)
        (λ old h. ground (arith, text_beq_iff old.server m.server, text_beq_iff old.server s)))
  where
    apart : (m.server == s) ≡ false
    apart = ground (arith, text_beq_iff m.server s)

-- After a manifest was put, its server is launched with the manifest's placeholder if the accepted
-- hash, which the put leaves as it was, is the hash of the new manifest, and is refused otherwise.
-- What is answered for any other server stays the same.
pub spawn_gate-put_manifest :
    (m : ManifestRecord) (db : Db)
    → (spawn_gate m.server (put_manifest m db) ≡ (
        if m.manifest_hash == consented m.server db
        then ok (placeholder_of m.injections)
        else err requires_reconsent))
      × ((s : Text) → s ≢ m.server → spawn_gate s (put_manifest m db) ≡ spawn_gate s db)
spawn_gate-put_manifest m db = (gate_put m db, gate_other m db)

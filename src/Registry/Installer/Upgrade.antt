-- ===== src/Registry/Installer/Upgrade.antt =====
-- Installing is consent for a server that was never accepted; an upgrade waits for one.
use gigmcp.Base.{
  Text, List, [], Bool, ◌||◌, ◌==◌, comparable_text, ◌≡◌, refl, ap, sym, subst, ◌∙◌, if◌then◌else◌,
  Option, none, some, Result, ok, err, arith, text_beq_iff, Bool-cases, Option-cases, inl, inr,
  first_where, first_where-updated,
}
use gigmcp.Store.Types.{Db, ManifestRecord, Injection}
use gigmcp.Store.Manifests.{
  of_server, stored_manifest, needs_reconsent, put_manifest, get_manifest, record_consent,
}
use gigmcp.Store.Accounts.{ensure_server}
use gigmcp.Gateway.SpawnGate.{
  Refusal, requires_reconsent, placeholder_of, spawn_gate, consented, put_manifest-row,
}
use gigmcp.Registry.Installer.{
  Manifest, World, build_injections, manifest_record, prior_of, prior_injections, is_first_consent,
  maybe_consent, ensure_row, is_same_install, refresh, fresh_install, install,
}

-- What the gate answers for a server once a manifest of it was installed over the state `db`.
abbrev pub verdict : Bool → Option ManifestRecord → ManifestRecord → Db → Result Refusal Text
verdict auto prior rec db =
    if auto || is_first_consent prior
    then ok (placeholder_of rec.injections)
    else if rec.manifest_hash == consented rec.server db
    then ok (placeholder_of rec.injections)
    else err requires_reconsent

gate_of_row :
    (server : Text) (d : Db) (row : ManifestRecord)
    → first_where (of_server server) d.manifests ≡ some row
    → spawn_gate server d ≡ (
        if row.manifest_hash == row.consented_hash
        then ok (placeholder_of row.injections)
        else err requires_reconsent)
unfolding spawn_gate get_manifest needs_reconsent
gate_of_row server d row at = ground (arith, at)

settled :
    (auto : Bool) (prior : Option ManifestRecord) (rec : ManifestRecord) (db d : Db)
    → first_where (of_server rec.server) d.manifests
      ≡ some (stored_manifest rec (consented rec.server db))
    → spawn_gate rec.server (maybe_consent auto rec.server rec.manifest_hash prior d).1
      ≡ verdict auto prior rec db
unfolding maybe_consent record_consent
settled auto prior rec db d at = elim (Bool-cases (auto || is_first_consent prior)) [
  | inl e ↦ rw e (
      gate_of_row rec.server (record_consent rec.server rec.manifest_hash d).1
        (record (stored_manifest rec (consented rec.server db)) {
          consented_hash = rec.manifest_hash;
        })
        (first_where-updated (of_server rec.server)
          (λ m. record m { consented_hash = rec.manifest_hash }) d.manifests
          (stored_manifest rec (consented rec.server db)) (λ m. refl) at)
      ∙ ground (arith, text_beq_iff rec.manifest_hash rec.manifest_hash))
  | inr e ↦ rw e (gate_of_row rec.server d (stored_manifest rec (consented rec.server db)) at)
]

ensure_row-manifests :
    (m : Manifest) (w : World) (db : Db) → (ensure_row m w db).1.manifests ≡ db.manifests
unfolding ensure_row ensure_server
ensure_row-manifests m w db = elim (Bool-cases m.toolpack) [ inl e ↦ rw e refl | inr e ↦ rw e refl ]

-- A state in which the installed manifest of the server was put over `db`.
abbrev pub IsInstalled : Bool → Manifest → World → Option ManifestRecord → Db → Db → Type 0
IsInstalled auto m w prior db after =
    (injs : List Injection) × (build_injections m.credentials (prior_injections prior) w.random
      ≡ some injs)
    × (spawn_gate m.name after ≡ verdict auto prior (manifest_record m injs) db)

refreshed :
    (auto : Bool) (m : Manifest) (w : World) (prior : Option ManifestRecord) (db : Db)
    (injs : List Injection)
    → build_injections m.credentials (prior_injections prior) w.random ≡ some injs
    → (refresh auto m w prior db).1
      ≡ (maybe_consent auto m.name m.runtime_hash prior
          (put_manifest (manifest_record m injs) (ensure_row m w db).1)).1
unfolding refresh
refreshed auto m w prior db injs built = ground (arith, built)

installed :
    (auto : Bool) (m : Manifest) (w : World) (prior : Option ManifestRecord) (db : Db)
    (injs : List Injection)
    → w.pulled ≡ none
    → build_injections m.credentials (prior_injections prior) w.random ≡ some injs
    → (fresh_install auto m w prior db).1
      ≡ (maybe_consent auto m.name m.runtime_hash prior
          (ensure_row m w (put_manifest (manifest_record m injs) db)).1).1
unfolding fresh_install
installed auto m w prior db injs pulled built = ground (arith, pulled, built)

refresh-IsInstalled :
    (auto : Bool) (m : Manifest) (w : World) (prior : Option ManifestRecord) (db : Db)
    → (refresh auto m w prior db).0 ≡ ok tt
    → IsInstalled auto m w prior db (refresh auto m w prior db).1
unfolding refresh
refresh-IsInstalled auto m w prior db e =
    elim (Option-cases (build_injections m.credentials (prior_injections prior) w.random)) [
      | inl failing ↦ ground (arith, failing)
      | inr (injs, built) ↦
          let rec = manifest_record m injs in
          let rowed = (ensure_row m w db).1 in
          (
            injs,
            built,
            ap (spawn_gate m.name) (refreshed auto m w prior db injs built)
                ∙ settled auto prior rec db (put_manifest rec rowed) (
                    subst
                      (λ (rows : List ManifestRecord).
                        first_where (of_server m.name) (put_manifest rec rowed).manifests
                        ≡ some (
                            stored_manifest rec (elim (first_where (of_server m.name) rows) [
                              | none ↦ []
                              | some o ↦ o.consented_hash
                            ])))
                      (ensure_row-manifests m w db) (put_manifest-row rec rowed)),
          )
    ]

fresh_install-IsInstalled :
    (auto : Bool) (m : Manifest) (w : World) (prior : Option ManifestRecord) (db : Db)
    → (fresh_install auto m w prior db).0 ≡ ok tt
    → IsInstalled auto m w prior db (fresh_install auto m w prior db).1
unfolding fresh_install
fresh_install-IsInstalled auto m w prior db e = elim (Option-cases w.pulled) [
  | inr (f, failing) ↦ ground (arith, failing)
  | inl pulled ↦
      elim (Option-cases (build_injections m.credentials (prior_injections prior) w.random)) [
        | inl failing ↦ ground (arith, pulled, failing)
        | inr (injs, built) ↦
            let rec = manifest_record m injs in
            (
              injs,
              built,
              ap (spawn_gate m.name) (installed auto m w prior db injs pulled built)
                  ∙ settled auto prior rec db (ensure_row m w (put_manifest rec db)).1 (
                      subst
                        (λ (rows : List ManifestRecord).
                          first_where (of_server m.name) rows
                          ≡ some (stored_manifest rec (consented m.name db)))
                        (sym (ensure_row-manifests m w (put_manifest rec db)))
                        (put_manifest-row rec db)),
            )
      ]
]

-- When an install succeeds, its server is then launched with the placeholder of its first injection
-- if consent is automatic, if there was no accepted manifest before, or if the accepted hash is that
-- of the new manifest. Otherwise the gate refuses the server until the change is accepted.
pub install-IsInstalled :
    (auto : Bool) (m : Manifest) (w : World) (db : Db)
    → (install auto m w db).0 ≡ ok tt
    → IsInstalled auto m w (prior_of m db) db (install auto m w db).1
unfolding install
install-IsInstalled auto m w db e = elim (Bool-cases (is_same_install m w (prior_of m db))) [
  | inl same ↦ rw same (refresh-IsInstalled auto m w (prior_of m db) db (ground (arith, same)))
  | inr new ↦ rw new (fresh_install-IsInstalled auto m w (prior_of m db) db (ground (arith, new)))
]

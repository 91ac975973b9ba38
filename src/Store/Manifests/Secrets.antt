-- ===== src/Store/Manifests/Secrets.antt =====
-- A credential is read back as it was put, under its own server and tenant alone.
use gigmcp.Base.{
  Text, List, [], ◌∷◌, true, false, ◌≡◌, ◌≢◌, ◌⊎◌, inl, inr, ap, ◌∙◌, comparable_text, any,
  first_where, ok, err, read-join_lines, AllLines, arith, text_beq_iff, first_where-upsert_self,
  first_where-upsert_other, first_where-delete_where, first_where-deleted, Option-cases, Bool-cases,
}
use gigmcp.Store.Types.{Db, Credential, credential_not_found}
use gigmcp.Store.Manifests.{
  of_tenant, stored_credential, put_credential, found_credential, get_credential, delete_credential,
}

of_tenant_self : (c : Credential) → of_tenant c.server c.tenant c ≡ true
of_tenant_self c = ground (arith, text_beq_iff c.server c.server, text_beq_iff c.tenant c.tenant)

of_tenant-apart :
    (server tenant s t : Text) (c : Credential)
    → (s ≢ server) ⊎ (t ≢ tenant)
    → of_tenant server tenant c ≡ true
    → of_tenant s t c ≡ false
of_tenant-apart server tenant s t c d h = ground (
  arith,
  text_beq_iff c.server server,
  text_beq_iff c.tenant tenant,
  text_beq_iff c.server s,
  text_beq_iff c.tenant t,
)

stored_same :
    (c : Credential)
    → AllLines c.allowed_hosts
    → c.allowed_hosts ≢ ([] ∷ [])
    → stored_credential c ≡ c
stored_same c lines several =
    ap (λ (hosts : List Text). record c { allowed_hosts = hosts })
      (read-join_lines c.allowed_hosts lines several)

-- A credential that was put, if its hosts have no line feed and are not one empty text, is read
-- back whole under its server and tenant; every other pair of server and tenant reads as before.
pub put_credential-get :
    (c : Credential) (db : Db)
    → AllLines c.allowed_hosts
    → c.allowed_hosts ≢ ([] ∷ [])
    → (get_credential c.server c.tenant (put_credential c db) ≡ ok c)
      × ((s t : Text)
          → (s ≢ c.server) ⊎ (t ≢ c.tenant)
          → get_credential s t (put_credential c db) ≡ get_credential s t db)
unfolding get_credential put_credential
put_credential-get c db lines several = (
  ap found_credential (
        first_where-upsert_self (of_tenant c.server c.tenant) (λ old. stored_credential c)
          (stored_credential c) db.credentials (of_tenant_self c) (λ old h. of_tenant_self c))
      ∙ elim (Option-cases (first_where (of_tenant c.server c.tenant) db.credentials)) [
        | inl e ↦ rw e (ap ok (stored_same c lines several))
        | inr (old, e) ↦ rw e (ap ok (stored_same c lines several))
      ],
  λ s t d.
      let apart = of_tenant-apart c.server c.tenant s t c d (of_tenant_self c) in
      ap found_credential (
        first_where-upsert_other (of_tenant c.server c.tenant) (of_tenant s t)
          (λ old. stored_credential c) (stored_credential c) db.credentials apart (λ old h. apart)
          (λ old h. of_tenant-apart c.server c.tenant s t old d h)),
)

there_is :
    (server tenant : Text) (rows : List Credential)
    → any (of_tenant server tenant) rows ≡ true
    → (c : Credential) × (found_credential (first_where (of_tenant server tenant) rows) ≡ ok c)
unfolding any first_where
there_is server tenant [] h = ground arith
there_is server tenant (c ∷ rows) h = elim (Bool-cases (of_tenant server tenant c)) [
  | inl e ↦ (c, ground (arith, e))
  | inr e ↦
      let (found, at) = there_is server tenant rows (ground (arith, e)) in
      (found, ground (arith, e, at))
]

-- Deleting a credential tells whether there was one, leaves none under its server and tenant, and
-- changes nothing that is read under another pair.
pub delete_credential-get :
    (server tenant : Text) (db : Db)
    → ((delete_credential server tenant db).0 ≡ true
        → (c : Credential) × (get_credential server tenant db ≡ ok c))
      × (get_credential server tenant (delete_credential server tenant db).1
          ≡ err credential_not_found)
      × ((s t : Text)
          → (s ≢ server) ⊎ (t ≢ tenant)
          → get_credential s t (delete_credential server tenant db).1 ≡ get_credential s t db)
unfolding get_credential delete_credential
delete_credential-get server tenant db = (
  λ had. there_is server tenant db.credentials had,
  ap found_credential (
      first_where-deleted (of_tenant server tenant) (of_tenant server tenant) db.credentials
        (λ c h. h)),
  λ s t d. ap found_credential (
      first_where-delete_where (of_tenant s t) (of_tenant server tenant) db.credentials
        (λ c h. ground (arith, of_tenant-apart server tenant s t c d))),
)

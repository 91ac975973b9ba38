-- ===== src/Store/Manifests/Refinement.antt =====
-- The table of credentials as a partial function from servers and tenants.
use gigmcp.Base.{
  Text, List, [], ◌∷◌, Bool, true, false, ◌&&◌, ◌==◌, comparable_text, if◌then◌else◌, Option, none,
  some, AllLines, ◌≡◌, ◌≢◌, ◌⊎◌, inl, inr, ap, ◌∙◌, sym, arith, text_beq_iff, Bool-cases,
}
use gigmcp.Store.Types.{Db, Credential}
use gigmcp.Store.Manifests.{put_credential, get_credential, delete_credential, found_credential}
use gigmcp.Store.Manifests.Secrets.{put_credential-get, delete_credential-get}

pub data Change : Type 0 where
  put : Credential → Change
  delete : (server tenant : Text) → Change

-- What the store does.
unfoldable pub applied : Change → Db → Db
applied (put c) db = put_credential c db
applied (delete server tenant) db = (delete_credential server tenant db).1

unfoldable pub history : List Change → Db → Db
unfolding applied
history [] db = db
history (c ∷ changes) db = history changes (applied c db)

-- What a client sees, and the same history on it.
abbrev pub View : Type 0
View = Text → Text → Option Credential

abbrev pub at : Text → Text → Text → Text → Bool
at server tenant s t = server == s && tenant == t

pub replayed : Change → View → View
replayed (put c) v s t = if at c.server c.tenant s t then some c else v s t
replayed (delete server tenant) v s t = if at server tenant s t then none else v s t

pub replay : List Change → View → View
replay [] v = v
replay (c ∷ changes) v = replay changes (replayed c v)

-- A table shows a view.
abbrev pub Shows : Db → View → Type 0
Shows db v = (s t : Text) → get_credential s t db ≡ found_credential (v s t)

-- The hosts of what is put can be kept in the column.
abbrev pub IsStorable : Change → Type 0
IsStorable (put c) = AllLines c.allowed_hosts × (c.allowed_hosts ≢ ([] ∷ []))
IsStorable (delete server tenant) = Unit

abbrev pub AllStorable : List Change → Type 0
AllStorable [] = Unit
AllStorable (c ∷ changes) = IsStorable c × AllStorable changes

differ : (server tenant s t : Text) → at server tenant s t ≡ false → (s ≢ server) ⊎ (t ≢ tenant)
differ server tenant s t e = elim (Bool-cases (server == s)) [
  | inr n ↦ inl (λ same. ground (arith, text_beq_iff server s))
  | inl y ↦ inr (λ same. ground (arith, text_beq_iff tenant t))
]

hit : (server tenant s t : Text) → at server tenant s t ≡ true → (server ≡ s) × (tenant ≡ t)
hit server tenant s t e =
    ((text_beq_iff server s).0 (ground arith), (text_beq_iff tenant t).0 (ground arith))

applied-Shows :
    (c : Change) (db : Db) (v : View)
    → IsStorable c
    → Shows db v
    → Shows (applied c db) (replayed c v)
unfolding applied replayed
applied-Shows (put c) db v h shows s t =
    let got = put_credential-get c db h.0 h.1 in
    elim (Bool-cases (at c.server c.tenant s t)) [
      | inl y ↦
          let (server, tenant) = hit c.server c.tenant s t y in
          ap (λ (x : Text). get_credential x t (put_credential c db)) (sym server)
          ∙ ap (λ (x : Text). get_credential c.server x (put_credential c db)) (sym tenant)
          ∙ got.0
          ∙ ground (arith, y)
      | inr n ↦ got.1 s t (differ c.server c.tenant s t n) ∙ shows s t ∙ ground (arith, n)
    ]
applied-Shows (delete server tenant) db v h shows s t =
    let got = delete_credential-get server tenant db in
    let after = (delete_credential server tenant db).1 in
    elim (Bool-cases (at server tenant s t)) [
      | inl y ↦
          let (same_server, same_tenant) = hit server tenant s t y in
          ap (λ (x : Text). get_credential x t after) (sym same_server)
          ∙ ap (λ (x : Text). get_credential server x after) (sym same_tenant)
          ∙ got.1
          ∙ ground (arith, y)
      | inr n ↦ got.2 s t (differ server tenant s t n) ∙ shows s t ∙ ground (arith, n)
    ]

-- After any history of puts, of hosts that the column can keep, and of deletes, the table shows
-- what the same history makes of the function that it showed before: each server and tenant has the
-- credential of its last put, unless a delete came after it, and else what it had.
pub history-Shows :
    (changes : List Change) (db : Db) (v : View)
    → AllStorable changes
    → Shows db v
    → Shows (history changes db) (replay changes v)
unfolding history replay
history-Shows [] db v h shows = shows
history-Shows (c ∷ changes) db v h shows =
    history-Shows changes (applied c db) (replayed c v) h.1 (applied-Shows c db v h.0 shows)

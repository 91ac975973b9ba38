-- ===== src/Auth/Scopes/Union.antt =====
-- The union of scope lists as a sorted set, and what the test of required scopes decides.
use gigmcp.Base.{
  Text, List, [], ◌∷◌, true, false, not, ◌&&◌, ◌==◌, comparable_text, any, ◌≡◌, ◌≢◌, ◌↔◌, refl,
  arith, text_beq_iff, All, Bool-cases, inl, inr, ◌∙◌,
}
use gigmcp.Store.Installs.{text_le}
use gigmcp.Auth.Scopes.{
  add_scope, scope_set, concat, union_scopes, scopes_satisfied, any-scope_set, any-append,
}

abbrev pub Above : Text → List Text → Type 0
Above s [] = Unit
Above s (t ∷ l) = (text_le s t ≡ true) × (s ≢ t)

abbrev pub IsAscending : List Text → Type 0
IsAscending [] = Unit
IsAscending (s ∷ l) = Above s l × IsAscending l

text_le_total : (s t : Text) → text_le s t ≡ false → text_le t s ≡ true
unfolding text_le
text_le_total [] t h = ground arith
text_le_total (c ∷ s) [] h = refl
text_le_total (c ∷ s) (d ∷ t) h = ground (arith, text_le_total s t)

add_scope-Above :
    (r s : Text) (l : List Text) → text_le r s ≡ true → r ≢ s → Above r l → Above r (add_scope s l)
unfolding add_scope
add_scope-Above r s [] le ne h = (le, ne)
add_scope-Above r s (t ∷ l) le ne h = elim (Bool-cases (s == t)) [
  | inl e ↦ rw e h
  | inr e ↦ rw e (elim (Bool-cases (text_le s t)) [ inl f ↦ rw f (le, ne) | inr f ↦ rw f h ])
]

add_scope-IsAscending : (s : Text) (l : List Text) → IsAscending l → IsAscending (add_scope s l)
unfolding add_scope
add_scope-IsAscending s [] h = (tt, tt)
add_scope-IsAscending s (t ∷ l) h = elim (Bool-cases (s == t)) [
  | inl e ↦ rw e h
  | inr e ↦ rw e (elim (Bool-cases (text_le s t)) [
    | inl f ↦ rw f ((f, λ p. ground (arith, e, text_beq_iff s t)), h)
    | inr f ↦ rw f (
      add_scope-Above t s l (text_le_total s t f) (λ p. ground (arith, e, text_beq_iff s t)) h.0,
      add_scope-IsAscending s l h.1,
    )
  ])
]

scope_set-IsAscending : (l : List Text) → IsAscending (scope_set l)
unfolding scope_set
scope_set-IsAscending [] = tt
scope_set-IsAscending (s ∷ l) = elim (Bool-cases (s == [])) [
  | inl e ↦ rw e (scope_set-IsAscending l)
  | inr e ↦ rw e (add_scope-IsAscending s (scope_set l) (scope_set-IsAscending l))
]

any-concat :
    (t : Text) (lists : List (List Text))
    → any (λ r. r == t) (concat lists) ≡ any (λ (l : List Text). any (λ r. r == t) l) lists
unfolding any
any-concat t [] = refl
any-concat t (l ∷ more) = any-append t l (concat more) ∙ ground (arith, any-concat t more)

pub record IsUnion (lists : List (List Text)) (scopes : List Text) : Type 0 where
  pub ascending : IsAscending scopes
  pub members :
      (t : Text)
      → any (λ r. r == t) scopes
        ≡ (not (t == []) && any (λ (l : List Text). any (λ r. r == t) l) lists)

-- The union of scope lists ascends strictly in the order of texts, so that no scope stands in it
-- twice, and holds exactly the scopes of the lists that are not empty texts.
pub union_scopes-IsUnion : (lists : List (List Text)) → IsUnion lists (union_scopes lists)
unfolding union_scopes
union_scopes-IsUnion lists = record {
  ascending = scope_set-IsAscending (concat lists);
  members = λ t. ground (arith, any-scope_set t (concat lists), any-concat t lists);
}

pub scopes_satisfied_iff :
    (granted required : List Text)
    → (scopes_satisfied granted required ≡ true)
      ↔ All (λ (s : Text). any (λ t. t == s) granted ≡ true) required
unfolding scopes_satisfied
scopes_satisfied_iff granted [] = (λ _. tt, λ _. refl)
scopes_satisfied_iff granted (s ∷ required) = (
  λ h. (ground arith, (scopes_satisfied_iff granted required).0 (ground arith)),
  λ h. ground (arith, h.0, (scopes_satisfied_iff granted required).1 h.1),
)

-- ===== src/Auth/Scopes.antt =====
-- internal/auth/oauthbroker.go: sets of OAuth scopes.
pub mod Union
use gigmcp.Base.{
  Text, List, [], ◌∷◌, ◌++◌, ℕ, Bool, true, false, not, ◌&&◌, ◌||◌, ◌==◌, comparable_text, nat_beq,
  leb, if◌then◌else◌, any, where_, longer, ◌≡◌, ◌≢◌, ◌↔◌, ◌⊎◌, inl, inr, refl, arith, Has,
  text_beq_iff, All, Bool-cases,
}
use gigmcp.Store.Installs.{text_le}

-- A scope goes into the sorted slice of the set, once.
unfoldable pub add_scope : Text → List Text → List Text
unfolding text_le
add_scope t [] = t ∷ []
add_scope t (s ∷ l) = if t == s then s ∷ l else if text_le t s then t ∷ s ∷ l else s ∷ add_scope t l

unfoldable pub scope_set : List Text → List Text
unfolding add_scope
scope_set [] = []
scope_set (s ∷ l) = let rest = scope_set l in if s == [] then rest else add_scope s rest

abbrev pub concat : List (List Text) → List Text
concat [] = []
concat (l ∷ more) = l ++ concat more

unfoldable pub union_scopes : List (List Text) → List Text
unfolding scope_set
union_scopes lists = scope_set (concat lists)

unfoldable pub scopes_satisfied : List Text → List Text → Bool
unfolding any
scopes_satisfied granted [] = true
scopes_satisfied granted (s ∷ required) =
    any (λ t. t == s) granted && scopes_satisfied granted required

-- unicode.IsSpace
unfoldable pub is_space : ℕ → Bool
is_space c =
    (leb 9 c && leb c 13)
    || nat_beq c 0x20
    || nat_beq c 0x85
    || nat_beq c 0xa0
    || nat_beq c 0x1680
    || (leb 0x2000 c && leb c 0x200a)
    || nat_beq c 0x2028
    || nat_beq c 0x2029
    || nat_beq c 0x202f
    || nat_beq c 0x205f
    || nat_beq c 0x3000

unfoldable pub split_spaces : Text → List Text
unfolding is_space
split_spaces [] = [] ∷ []
split_spaces (c ∷ s) = if is_space c then [] ∷ split_spaces s else longer c (split_spaces s)

-- strings.Fields
unfoldable pub fields : Text → List Text
unfolding split_spaces
fields s = where_ (λ word. not (word == [])) (split_spaces s)

pub any-add_scope :
    (t s : Text) (l : List Text)
    → any (λ r. r == t) (add_scope s l) ≡ (if s == t then true else any (λ r. r == t) l)
unfolding add_scope any
any-add_scope t s [] = ground arith
any-add_scope t s (r ∷ l) =
    ground (arith, any-add_scope t s l, text_beq_iff s r, text_beq_iff s t, text_beq_iff r t)

pub any-scope_set :
    (t : Text) (l : List Text)
    → any (λ r. r == t) (scope_set l) ≡ (if t == [] then false else any (λ r. r == t) l)
unfolding scope_set any
any-scope_set t [] = ground arith
any-scope_set t (s ∷ l) = ground (
  arith,
  any-scope_set t l,
  any-add_scope t s (scope_set l),
  text_beq_iff s [],
  text_beq_iff t [],
  text_beq_iff s t,
)

pub any-append :
    (t : Text) (l k : List Text)
    → any (λ r. r == t) (l ++ k) ≡ (any (λ r. r == t) l || any (λ r. r == t) k)
unfolding any
any-append t [] k = refl
any-append t (s ∷ l) k = ground (arith, any-append t l k)

-- ===== src/Base/Texts.antt =====
-- A Go string as the list of its code points, and the functions of package strings that the
-- program calls.
use Prim.Native.Nat.{ℕ, zero, suc, ◌-◌}
use Prim.Native.Char.{code}
use Prim.Native.String.{String}
use mathlib.Core.Path.{◌≡◌, refl, ap, sym, ◌∙◌}
use mathlib.Core.Bool.{Bool, true, false, ◌&&◌, ◌||◌}
use mathlib.Core.Logic.{◌↔◌, ◌≢◌}
use mathlib.Core.Option.{Option, none, some}
use mathlib.Core.List.{List, [], ◌∷◌, ◌++◌}
use native.Mathlib.Omega.{arith}
use gigmcp.Base.Tests.{if◌then◌else◌, Comparable, nat_beq, leb, comparable_nat}
use gigmcp.Base.Lists.{length, take, drop, length-append, drop-append, take-append}

abbrev pub Text : Type 0
Text = List ℕ

-- A literal.
abbrev pub lit : String → Text
lit String.[] = []
lit (String.◌∷◌ c s) = code c ∷ lit s

unfoldable pub text_beq : Text → Text → Bool
text_beq [] [] = true
text_beq [] (y ∷ ys) = false
text_beq (x ∷ xs) [] = false
text_beq (x ∷ xs) (y ∷ ys) = nat_beq x y && text_beq xs ys

pub text_beq_iff : (a b : Text) → (text_beq a b ≡ true) ↔ (a ≡ b)
unfolding text_beq
text_beq_iff [] [] = ground arith
text_beq_iff [] (y ∷ ys) = ground arith
text_beq_iff (x ∷ xs) [] = ground arith
text_beq_iff (x ∷ xs) (y ∷ ys) = ground (arith, text_beq_iff xs ys)

instance abbrev pub comparable_text : Comparable Text
comparable_text = record { test = text_beq; decides = text_beq_iff }

-- strings.HasPrefix
unfoldable pub has_prefix : Text → Text → Bool
has_prefix s [] = true
has_prefix [] (p ∷ ps) = false
has_prefix (c ∷ s) (p ∷ ps) = nat_beq c p && has_prefix s ps

pub has_prefix_iff : (s p : Text) → (has_prefix s p ≡ true) ↔ ((r : Text) × (s ≡ p ++ r))
unfolding has_prefix
has_prefix_iff s [] = (λ _. (s, refl), λ _. refl)
has_prefix_iff [] (p ∷ ps) = (λ h. cc, λ (r, e). cc)
has_prefix_iff (c ∷ s) (p ∷ ps) = (
  λ h. let (r, e) = (has_prefix_iff s ps).0 (ground arith) in (r, ground arith),
  λ (r, e). ground (arith, (has_prefix_iff s ps).1 (r, ground arith)),
)

-- strings.HasSuffix
unfoldable pub has_suffix : Text → Text → Bool
has_suffix s suffix =
    leb (length suffix) (length s) && text_beq (drop (length s - length suffix) s) suffix

take-drop : (n : ℕ) (s : Text) → take n s ++ drop n s ≡ s
take-drop zero s = refl
take-drop (suc n) [] = refl
take-drop (suc n) (c ∷ s) = ap (λ (r : Text). c ∷ r) (take-drop n s)

-- What stands before the suffix, by `s[:len(s)-len(suffix)]`.
pub has_suffix-split :
    (s suffix : Text) → has_suffix s suffix ≡ true → s ≡ take (length s - length suffix) s ++ suffix
unfolding has_suffix
has_suffix-split s suffix h =
    sym (take-drop (length s - length suffix) s)
    ∙ ap (λ (r : Text). take (length s - length suffix) s ++ r)
        ((text_beq_iff (drop (length s - length suffix) s) suffix).0 (ground arith))

append-cut : (l suffix : Text) → length (l ++ suffix) - length suffix ≡ length l
append-cut l suffix = omega (arith, length-append l suffix)

pub has_suffix-append :
    (l suffix : Text)
    → (has_suffix (l ++ suffix) suffix ≡ true)
      × (take (length (l ++ suffix) - length suffix) (l ++ suffix) ≡ l)
unfolding has_suffix
has_suffix-append l suffix = (
  rw (append-cut l suffix, drop-append l suffix)
      (ground (arith, length-append l suffix, text_beq_iff suffix suffix)),
  rw (append-cut l suffix) (take-append l suffix),
)

-- strings.Contains
unfoldable pub contains : Text → Text → Bool
contains [] sub = has_prefix [] sub
contains (c ∷ s) sub = has_prefix (c ∷ s) sub || contains s sub

-- The rest of a replacement skips what the match has read.
unfoldable pub replace_from : ℕ → Text → Text → Text → Text
unfolding has_prefix
replace_from skip old new [] = []
replace_from (suc skip) old new (c ∷ s) = replace_from skip old new s
replace_from zero old new (c ∷ s) = elim (has_prefix (c ∷ s) old) [
  | true ↦ new ++ replace_from (length old - 1) old new s
  | false ↦ c ∷ replace_from zero old new s
]

-- strings.ReplaceAll, for a non-empty `old`
unfoldable pub replace_all : Text → Text → Text → Text
unfolding replace_from
replace_all s old new = replace_from 0 old new s

-- strings.CutPrefix
unfoldable pub cut_prefix : Text → Text → Option Text
cut_prefix s [] = some s
cut_prefix [] (p ∷ ps) = none
cut_prefix (c ∷ s) (p ∷ ps) = if nat_beq c p then cut_prefix s ps else none

-- strings.Join(parts, "\n")
unfoldable pub join_lines : List Text → Text
join_lines [] = []
join_lines (s ∷ []) = s
join_lines (s ∷ more) = s ++ 10 ∷ join_lines more

-- The first line grows by a character.
abbrev pub longer : ℕ → List Text → List Text
longer c [] = (c ∷ []) ∷ []
longer c (s ∷ more) = (c ∷ s) ∷ more

-- strings.Split(s, "\n")
unfoldable pub split_lines : Text → List Text
split_lines [] = [] ∷ []
split_lines (c ∷ s) = if nat_beq c 10 then [] ∷ split_lines s else longer c (split_lines s)

-- A list column: empty text is the nil slice.
unfoldable pub read_lines : Text → List Text
unfolding split_lines
read_lines [] = []
read_lines (c ∷ s) = split_lines (c ∷ s)

abbrev pub IsLine : Text → Type 0
IsLine [] = Unit
IsLine (c ∷ s) = (c ≢ 10) × IsLine s

abbrev pub AllLines : List Text → Type 0
AllLines [] = Unit
AllLines (s ∷ more) = IsLine s × AllLines more

split_one : (s : Text) → IsLine s → split_lines s ≡ s ∷ []
unfolding split_lines
split_one [] h = refl
split_one (c ∷ s) h = ground (arith, split_one s h.1)

split-append : (s rest : Text) → IsLine s → split_lines (s ++ 10 ∷ rest) ≡ s ∷ split_lines rest
unfolding split_lines
split-append [] rest h = refl
split-append (c ∷ s) rest h = ground (arith, split-append s rest h.1)

split-join :
    (s : Text) (more : List Text)
    → AllLines (s ∷ more)
    → split_lines (join_lines (s ∷ more)) ≡ s ∷ more
unfolding join_lines
split-join s [] h = split_one s h.0
split-join s (t ∷ more) h =
    split-append s (join_lines (t ∷ more)) h.0
    ∙ ap (λ (l : List Text). s ∷ l) (split-join t more h.1)

-- What PutCredential and PutManifest store of a list is read back, unless the list is one empty
-- text, which reads as no text.
pub read-join_lines :
    (parts : List Text) → AllLines parts → parts ≢ ([] ∷ []) → read_lines (join_lines parts) ≡ parts
unfolding read_lines join_lines
read-join_lines [] h ne = refl
read-join_lines ([] ∷ []) h ne = absurd (ne refl)
read-join_lines ((c ∷ s) ∷ []) h ne = split-join (c ∷ s) [] h
read-join_lines ([] ∷ t ∷ more) h ne = split-join [] (t ∷ more) h
read-join_lines ((c ∷ s) ∷ t ∷ more) h ne = split-join (c ∷ s) (t ∷ more) h

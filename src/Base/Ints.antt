-- ===== src/Base/Ints.antt =====
-- int64 identifiers, and strconv.ParseInt(s, 10, 64) and strconv.FormatInt(n, 10).
use Prim.Native.Nat.{ℕ, zero, suc, ◌+◌, ◌-◌, ◌*◌, ◌/◌, ◌%◌, ◌^◌, ◌≤◌, ◌<◌}
use mathlib.Core.Path.{◌≡◌, refl, ap, sym, ◌∙◌}
use mathlib.Core.Bool.{Bool, true, false, ◌&&◌}
use mathlib.Core.Logic.{◌↔◌, inl, inr}
use mathlib.Core.Option.{Option, none, some}
use mathlib.Core.List.{[], ◌∷◌}
use native.Mathlib.Omega.{arith}
use gigmcp.Base.Tests.{if◌then◌else◌, Comparable, nat_beq, leb, ltb, Bool-cases}
use gigmcp.Base.Texts.{Text}

-- `negsuc n` is -(n + 1).
pub data ℤ : Type 0 where
  pos : ℕ → ℤ
  negsuc : ℕ → ℤ

unfoldable pub int_beq : ℤ → ℤ → Bool
int_beq (pos a) (pos b) = nat_beq a b
int_beq (negsuc a) (negsuc b) = nat_beq a b
int_beq (pos a) (negsuc b) = false
int_beq (negsuc a) (pos b) = false

pub int_beq_iff : (a b : ℤ) → (int_beq a b ≡ true) ↔ (a ≡ b)
unfolding int_beq
int_beq_iff (pos a) (pos b) = ground arith
int_beq_iff (negsuc a) (negsuc b) = ground arith
int_beq_iff (pos a) (negsuc b) = ground arith
int_beq_iff (negsuc a) (pos b) = ground arith

instance abbrev pub comparable_int : Comparable ℤ
comparable_int = record { test = int_beq; decides = int_beq_iff }

-- The digits of an unsigned number, read after those that make `acc`.
unfoldable pub parse_digits : ℕ → Text → Option ℕ
parse_digits acc [] = some acc
parse_digits acc (c ∷ s) =
    let rest = parse_digits (acc * 10 + (c - b'0')) s in
    if leb b'0' c && leb c b'9' then rest else none

-- A value within `limit` of the sign.
unfoldable pub signed : Bool → Option ℕ → Option ℤ
signed negative none = none
signed true (some zero) = some (pos 0)
signed true (some (suc n)) = if ltb n (2 ^ 63) then some (negsuc n) else none
signed false (some n) = if ltb n (2 ^ 63) then some (pos n) else none

unfoldable pub parse_unsigned : Text → Option ℕ
unfolding parse_digits
parse_unsigned [] = none
parse_unsigned (c ∷ s) = parse_digits 0 (c ∷ s)

unfoldable pub parse_int : Text → Option ℤ
unfolding parse_unsigned signed
parse_int [] = none
parse_int (c ∷ s) =
    if nat_beq c b'-'
    then signed true (parse_unsigned s)
    else if nat_beq c b'+'
    then signed false (parse_unsigned s)
    else signed false (parse_unsigned (c ∷ s))

-- The digits of n before `rest`; the fuel is at least the number of digits.
unfoldable pub format_from : ℕ → ℕ → Text → Text
format_from zero n rest = rest
format_from (suc fuel) n rest =
    let more = format_from fuel (n / 10) ((b'0' + n % 10) ∷ rest) in
    if ltb n 10 then (b'0' + n) ∷ rest else more

unfoldable pub format_nat : ℕ → Text
unfolding format_from
format_nat n = format_from (n + 1) n []

unfoldable pub format_int : ℤ → Text
unfolding format_nat
format_int (pos n) = format_nat n
format_int (negsuc n) = b'-' ∷ format_nat (n + 1)

parse_digit :
    (acc d : ℕ) (rest : Text)
    → d < 10
    → parse_digits acc ((b'0' + d) ∷ rest) ≡ parse_digits (acc * 10 + d) rest
unfolding parse_digits
parse_digit acc d rest h =
    let value : acc * 10 + (b'0' + d - b'0') ≡ acc * 10 + d = omega arith in rw value (ground arith)

-- Reading what was written goes on behind the number that was written.
parse-format_from :
    (fuel n : ℕ) (rest : Text)
    → n < fuel
    → parse_digits 0 (format_from fuel n rest) ≡ parse_digits n rest
unfolding format_from
parse-format_from zero n rest h = elim h [ ]
parse-format_from (suc fuel) n rest h = elim (Bool-cases (ltb n 10)) [
  | inl small ↦
      rw small
        (parse_digit 0 n rest (ground arith) ∙ ap (λ (m : ℕ). parse_digits m rest) (omega arith))
  | inr large ↦ rw large (
      parse-format_from fuel (n / 10) ((b'0' + n % 10) ∷ rest) (ground arith)
      ∙ parse_digit (n / 10) (n % 10) rest (omega arith)
      ∙ ap (λ (m : ℕ). parse_digits m rest) (omega arith))
]

-- What is written begins with a digit.
abbrev Written : Text → Type 0
Written t = (c : ℕ) × (s : Text) × (t ≡ c ∷ s) × (b'0' ≤ c) × (c ≤ b'9')

format_from-Written : (fuel n : ℕ) (rest : Text) → n < fuel → Written (format_from fuel n rest)
unfolding format_from
format_from-Written zero n rest h = elim h [ ]
format_from-Written (suc fuel) n rest h = elim (Bool-cases (ltb n 10)) [
  | inl small ↦ rw small (b'0' + n, rest, refl, omega arith, ground arith)
  | inr large ↦ rw large (format_from-Written fuel (n / 10) ((b'0' + n % 10) ∷ rest) (ground arith))
]

parse_unsigned-cons : (c : ℕ) (s : Text) → parse_unsigned (c ∷ s) ≡ parse_digits 0 (c ∷ s)
unfolding parse_unsigned
parse_unsigned-cons c s = refl

parse_unsigned-format_nat : (n : ℕ) → parse_unsigned (format_nat n) ≡ some n
unfolding format_nat parse_digits
parse_unsigned-format_nat n =
    let (c, s, shape, _, _) = format_from-Written (n + 1) n [] (omega arith) in
    ap parse_unsigned shape
    ∙ parse_unsigned-cons c s
    ∙ ap (parse_digits 0) (sym shape)
    ∙ parse-format_from (n + 1) n [] (omega arith)

parse_int-digit :
    (c : ℕ) (s : Text) → b'0' ≤ c → parse_int (c ∷ s) ≡ signed false (parse_unsigned (c ∷ s))
unfolding parse_int
parse_int-digit c s lo = ground arith

parse_int-minus : (s : Text) → parse_int (b'-' ∷ s) ≡ signed true (parse_unsigned s)
unfolding parse_int
parse_int-minus s = refl

abbrev pub IsInt64 : ℤ → Type 0
IsInt64 (pos n) = n < 2 ^ 63
IsInt64 (negsuc n) = n < 2 ^ 63

pub parse_int-format_int : (n : ℤ) → IsInt64 n → parse_int (format_int n) ≡ some n
unfolding format_int signed
parse_int-format_int (pos n) h =
    let (c, s, shape, lo, _) = format_from-Written (n + 1) n [] (omega arith) in
    ap parse_int shape
    ∙ parse_int-digit c s lo
    ∙ ap (signed false) (ap parse_unsigned (sym shape) ∙ parse_unsigned-format_nat n)
    ∙ ground arith
parse_int-format_int (negsuc n) h =
    parse_int-minus (format_nat (n + 1))
    ∙ ap (signed true) (parse_unsigned-format_nat (n + 1))
    ∙ ground arith

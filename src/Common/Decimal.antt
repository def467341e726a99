-- ===== src/Common/Decimal.antt =====
-- Go's strconv on int64 in base 10: `FormatInt` and `ParseInt`.
use Prim.Native.Nat.{ℕ, zero, suc, ◌+◌, ◌-◌, ◌*◌, ◌/◌, ◌%◌, ◌^◌, ◌≤◌, ◌<◌}
use mathlib.Core.Path.{◌≡◌, ◌∙◌}
use mathlib.Core.Bool.{true, false, ◌&&◌}
use mathlib.Core.Logic.{inl, inr}
use mathlib.Core.Option.{Option, none, some}
use mathlib.Core.List.{[], ◌∷◌}
use native.Mathlib.Omega.{arith}
use cascade_feed_ranking_eng.Common.Tests.{ltb, leb, ◌==◌, if◌then◌else◌, Bool-cases}
use cascade_feed_ranking_eng.Common.Int.{ℤ, pos, negsuc}
use cascade_feed_ranking_eng.Common.Lists.{Bytes}

-- The digits of `n` in front of `rest`. The fuel is `n + 1`, and each round divides by ten.
format_digits : ℕ → ℕ → Bytes → Bytes
format_digits zero n rest = rest
format_digits (suc f) n rest = elim (ltb n 10) [
  | true ↦ (48 + n) ∷ rest
  | false ↦ format_digits f (n / 10) ((48 + n % 10) ∷ rest)
]

unfoldable pub format_int : ℤ → Bytes
unfolding format_digits
format_int (pos n) = format_digits (suc n) n []
format_int (negsuc n) = b'-' ∷ format_digits (suc (suc n)) (suc n) []

parse_digits : ℕ → Bytes → Option ℕ
parse_digits n [] = some n
parse_digits n (c ∷ rest) =
    let more = parse_digits (n * 10 + (c - 48)) rest in if leb 48 c && leb c 57 then more else none

-- An empty number, a byte that is no digit and a value outside int64 are errors.
unfoldable pub parse_unsigned : Bytes → Option ℕ
unfolding parse_digits
parse_unsigned [] = none
parse_unsigned (c ∷ rest) = parse_digits 0 (c ∷ rest)

unfoldable pub as_positive : Option ℕ → Option ℤ
as_positive none = none
as_positive (some n) = if ltb n (2 ^ 63) then some (pos n) else none

unfoldable pub as_negative : Option ℕ → Option ℤ
as_negative none = none
as_negative (some n) =
    if ltb (2 ^ 63) n then none else if n == 0 then some (pos 0) else some (negsuc (n - 1))

unfoldable pub parse_int : Bytes → Option ℤ
unfolding parse_unsigned as_positive as_negative
parse_int [] = none
parse_int (c ∷ rest) =
    if c == b'-'
    then as_negative (parse_unsigned rest)
    else if c == b'+'
    then as_positive (parse_unsigned rest)
    else as_positive (parse_unsigned (c ∷ rest))

digit_test : (d : ℕ) → d < 10 → (leb 48 (48 + d) && leb (48 + d) 57) ≡ true
digit_test d h = ground arith

read_digit :
    (n : ℕ) (rest : Bytes) → parse_digits (n / 10) ((48 + n % 10) ∷ rest) ≡ parse_digits n rest
unfolding parse_digits
read_digit n rest =
    let whole : n / 10 * 10 + (48 + n % 10 - 48) ≡ n = omega arith in
    rw (whole, digit_test (n % 10) (omega arith))

parse-format_digits :
    (f n : ℕ) (rest : Bytes) → n < f → parse_digits 0 (format_digits f n rest) ≡ parse_digits n rest
unfolding format_digits parse_digits
parse-format_digits zero n rest h = absurd (omega arith)
parse-format_digits (suc f) n rest h = elim (Bool-cases (ltb n 10)) [
  | inl small ↦ rw (small, format_digits) (ground arith)
  | inr large ↦
      rw (large, format_digits)
        (parse-format_digits f (n / 10) ((48 + n % 10) ∷ rest) (ground arith) ∙ read_digit n rest)
]

first_digit :
    (f n : ℕ) (rest : Bytes)
    → n < f
    → (c : ℕ) × (more : Bytes) × (format_digits f n rest ≡ c ∷ more) × (48 ≤ c)
unfolding format_digits
first_digit zero n rest h = absurd (omega arith)
first_digit (suc f) n rest h = elim (Bool-cases (ltb n 10)) [
  | inl small ↦ (48 + n, rest, rw (small, format_digits), omega arith)
  | inr large ↦
      let (c, more, e, digit) = first_digit f (n / 10) ((48 + n % 10) ∷ rest) (ground arith) in
      (c, more, rw (large, format_digits) e, digit)
]

unsigned_digits :
    (s : Bytes) (c : ℕ) (more : Bytes) → s ≡ c ∷ more → parse_unsigned s ≡ parse_digits 0 s
unfolding parse_unsigned
unsigned_digits s c more e = rw (e, parse_unsigned)

unsigned_back : (n : ℕ) → parse_unsigned (format_digits (suc n) n []) ≡ some n
unfolding parse_digits
unsigned_back n =
    let (c, more, e, _) = first_digit (suc n) n [] (omega arith) in
    unsigned_digits (format_digits (suc n) n []) c more e
    ∙ parse-format_digits (suc n) n [] (omega arith)

positive_back :
    (s : Bytes) (c : ℕ) (more : Bytes)
    → s ≡ c ∷ more
    → 48 ≤ c
    → parse_int s ≡ as_positive (parse_unsigned s)
unfolding parse_int
positive_back s c more e h = rw e (ground arith)

abbrev pub IsInt64 : ℤ → Type 0
IsInt64 (pos n) = n < 2 ^ 63
IsInt64 (negsuc n) = n < 2 ^ 63

-- `ParseInt` reads back what `FormatInt` wrote.
pub parse-format_int : (x : ℤ) → IsInt64 x → parse_int (format_int x) ≡ some x
unfolding format_int as_positive as_negative
parse-format_int (pos n) h =
    let (c, more, e, digit) = first_digit (suc n) n [] (omega arith) in
    rw (positive_back (format_digits (suc n) n []) c more e digit, unsigned_back n) (ground arith)
parse-format_int (negsuc n) h = unfold parse_int in rw (unsigned_back (suc n)) (ground arith)

-- ===== src/Decimal.antt =====
-- Decimal texts: %d of fmt.Sprintf, strconv.FormatInt, the reading of `ACTION_%d` by fmt.Sscanf, and
-- strconv.Atoi.
pub mod RoundTrip
pub mod Atoi
use dahlia.Common.{
  ℕ, zero, suc, ◌+◌, ◌-◌, ◌*◌, ◌/◌, ◌%◌, ◌^◌, ℤ, pos, negsuc, ◌≡◌, refl, Bool, true, false, ◌&&◌,
  ◌||◌, Option, none, some, [], ◌∷◌, ◌++◌, Text, codes, ltb, leb, ◌==◌, if◌then◌else◌,
}

-- The last digit goes in front of what is written already; one unit of fuel for each digit.
digits : ℕ → ℕ → Text → Text
digits zero n out = out
digits (suc f) n out =
    let more = digits f (n / 10) ((b'0' + n % 10) ∷ out) in
    if ltb n 10 then (b'0' + n) ∷ out else more

-- A number has at most as many digits as its value and one more.
unfoldable pub format_nat : ℕ → Text
unfolding digits
format_nat n = digits (suc n) n []

unfoldable pub format_int : ℤ → Text
unfolding format_nat
format_int (pos n) = format_nat n
format_int (negsuc n) = b'-' ∷ format_nat (suc n)

pub is_digit : ℕ → Bool
is_digit c = leb b'0' c && leb c b'9'

-- The digits at the front of a text, as %d reads them; what follows is left unread.
scan_digits : ℕ → Text → ℕ
unfolding is_digit
scan_digits v [] = v
scan_digits v (c ∷ s) = if is_digit c then scan_digits (v * 10 + (c - b'0')) s else v

pub starts_with_digit : Text → Bool
unfolding is_digit
starts_with_digit [] = false
starts_with_digit (c ∷ s) = is_digit c

-- An int has 64 bits; a number out of range is an error of Sscanf.
abbrev pub max_int : ℕ
max_int = 2 ^ 63 - 1

scan_nat : Text → Option ℕ
unfolding scan_digits starts_with_digit
scan_nat s = if starts_with_digit s then some (scan_digits 0 s) else none

positive : Option ℕ → Option ℤ
positive none = none
positive (some n) = if leb n max_int then some (pos n) else none

negative : Option ℕ → Option ℤ
negative none = none
negative (some zero) = some (pos 0)
negative (some (suc n)) = if leb n max_int then some (negsuc n) else none

-- %d skips blanks, and takes a sign
scan_int : Text → Option ℤ
unfolding scan_nat positive negative
scan_int [] = none
scan_int (c ∷ s) =
    let skipped = scan_int s in
    if c == b' '
    then skipped
    else if c == b'-'
    then negative (scan_nat s)
    else if c == b'+'
    then positive (scan_nat s)
    else positive (scan_nat (c ∷ s))

-- The text must begin with the given one, which is dropped.
unfoldable pub strip_prefix : Text → Text → Option Text
strip_prefix [] s = some s
strip_prefix (c ∷ p) [] = none
strip_prefix (c ∷ p) (d ∷ s) = if c == d then strip_prefix p s else none

scan_index : Option Text → Option ℤ
unfolding scan_int
scan_index none = none
scan_index (some s) = scan_int s

-- fmt.Sscanf(resumeFrom, "ACTION_%d", &delayActionIndex)
unfoldable pub scan_action : Text → Option ℤ
unfolding scan_index strip_prefix
scan_action s = scan_index (strip_prefix (codes "ACTION_") s)

-- strconv.Atoi: digits only, after an optional sign
atoi_digits : ℕ → Text → Option ℕ
unfolding is_digit
atoi_digits v [] = some v
atoi_digits v (c ∷ s) = if is_digit c then atoi_digits (v * 10 + (c - b'0')) s else none

atoi_nat : Text → Option ℕ
unfolding atoi_digits
atoi_nat [] = none
atoi_nat (c ∷ s) = atoi_digits 0 (c ∷ s)

unfoldable pub atoi : Text → Option ℤ
unfolding atoi_nat positive negative
atoi [] = none
atoi (c ∷ s) =
    if c == b'-'
    then negative (atoi_nat s)
    else if c == b'+'
    then positive (atoi_nat s)
    else positive (atoi_nat (c ∷ s))

format_tests :
    (format_nat 0 ≡ codes "0")
    × (format_nat 1700000000123 ≡ codes "1700000000123")
    × (format_int (negsuc 41) ≡ codes "-42")
unfolding format_int
format_tests = (refl, refl, refl)

scan_tests :
    (scan_action (codes "ACTION_12") ≡ some (pos 12))
    × (scan_action (codes "ACTION_-1x") ≡ some (negsuc 0))
    × (scan_action (codes "ACTION_") ≡ none)
    × (scan_action (codes "STEP_1") ≡ none)
unfolding scan_action
scan_tests = (refl, refl, refl, refl)

atoi_tests :
    (atoi (codes "-12") ≡ some (negsuc 11))
    × (atoi (codes "12x") ≡ none)
    × (atoi (codes "+") ≡ none)
    × (atoi (codes "9223372036854775808") ≡ none)
unfolding atoi
atoi_tests = (refl, refl, refl, refl)

-- ===== src/Decimal/Atoi.antt =====
-- What %d prints, Atoi reads back, within 64 bits.
use dahlia.Common.{
  ℕ, zero, suc, ◌+◌, ◌/◌, ◌%◌, ◌<◌, pos, ◌≡◌, refl, ◌∙◌, ap, none, some, [], ◌∷◌, Text, true, false,
  is_empty, leb, if◌then◌else◌, arith,
}
use dahlia.Decimal.{
  digits, format_nat, starts_with_digit, atoi_digits, atoi_nat, atoi, positive, max_int,
}
use dahlia.Decimal.RoundTrip.{starts_with_digit-format_nat}

atoi_digits_last :
    (n : ℕ) (out : Text) → atoi_digits (n / 10) ((b'0' + n % 10) ∷ out) ≡ atoi_digits n out
unfolding atoi_digits
atoi_digits_last n out = ground arith

atoi_digits_only :
    (n : ℕ) (out : Text) → n < 10 → atoi_digits 0 ((b'0' + n) ∷ out) ≡ atoi_digits n out
unfolding atoi_digits
atoi_digits_only n out h = ground arith

atoi_digits-digits :
    (f n : ℕ) (out : Text) → n < f → atoi_digits 0 (digits f n out) ≡ atoi_digits n out
unfolding digits
atoi_digits-digits zero n out h = elim h [ ]
atoi_digits-digits (suc f) n out h = ground (
  arith,
  atoi_digits_only n out,
  atoi_digits_last n out,
  atoi_digits-digits f (n / 10) ((b'0' + n % 10) ∷ out),
)

atoi_digits-format_nat : (n : ℕ) → atoi_digits 0 (format_nat n) ≡ some n
unfolding format_nat
atoi_digits-format_nat n =
    atoi_digits-digits (suc n) n [] (omega arith) ∙ (unfold atoi_digits in refl)

atoi_of_digit : (s : Text) → starts_with_digit s ≡ true → atoi s ≡ positive (atoi_digits 0 s)
unfolding atoi atoi_nat starts_with_digit
atoi_of_digit [] h = ground arith
atoi_of_digit (c ∷ s) h = ground arith

pub atoi-format_nat : (n : ℕ) → atoi (format_nat n) ≡ (if leb n max_int then some (pos n) else none)
unfolding positive
atoi-format_nat n =
    atoi_of_digit (format_nat n) (starts_with_digit-format_nat n)
    ∙ ap positive (atoi_digits-format_nat n)

not_empty_of_digit : (s : Text) → starts_with_digit s ≡ true → is_empty s ≡ false
unfolding starts_with_digit
not_empty_of_digit [] h = ground arith
not_empty_of_digit (c ∷ s) h = refl

pub is_empty-format_nat : (n : ℕ) → is_empty (format_nat n) ≡ false
is_empty-format_nat n = not_empty_of_digit (format_nat n) (starts_with_digit-format_nat n)

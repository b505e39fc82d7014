-- ===== src/Decimal/RoundTrip.antt =====
-- What %d prints, %d reads back.
use mathlib.Core.Path.{subst}
use dahlia.Common.{
  All, false, ◌≢◌, Bool-cases, ltb, inl, inr, ℤ, negsuc, ℕ, zero, suc, ◌+◌, ◌/◌, ◌%◌, ◌≤◌, ◌<◌, pos,
  ◌≡◌, refl, sym, true, ap, ◌∙◌, some, [], ◌∷◌, ◌++◌, Text, codes, arith,
}
use dahlia.Decimal.{
  format_int, digits, format_nat, scan_digits, starts_with_digit, max_int, scan_nat, positive,
  scan_int, scan_action,
}

scan_digits_last :
    (n : ℕ) (out : Text) → scan_digits (n / 10) ((b'0' + n % 10) ∷ out) ≡ scan_digits n out
unfolding scan_digits
scan_digits_last n out = ground arith

scan_digits_only :
    (n : ℕ) (out : Text) → n < 10 → scan_digits 0 ((b'0' + n) ∷ out) ≡ scan_digits n out
unfolding scan_digits
scan_digits_only n out h = ground arith

scan_digits-digits :
    (f n : ℕ) (out : Text) → n < f → scan_digits 0 (digits f n out) ≡ scan_digits n out
unfolding digits
scan_digits-digits zero n out h = elim h [ ]
scan_digits-digits (suc f) n out h = ground (
  arith,
  scan_digits_only n out,
  scan_digits_last n out,
  scan_digits-digits f (n / 10) ((b'0' + n % 10) ∷ out),
)

starts_with_digit-digits :
    (f n : ℕ) (out : Text) → n < f → starts_with_digit (digits f n out) ≡ true
unfolding digits starts_with_digit
starts_with_digit-digits zero n out h = elim h [ ]
starts_with_digit-digits (suc f) n out h =
    ground (arith, starts_with_digit-digits f (n / 10) ((b'0' + n % 10) ∷ out))

scan_digits-format_nat : (n : ℕ) → scan_digits 0 (format_nat n) ≡ n
unfolding format_nat
scan_digits-format_nat n =
    scan_digits-digits (suc n) n [] (omega arith) ∙ (unfold scan_digits in refl)

pub format_nat_injective : (m n : ℕ) → format_nat m ≡ format_nat n → m ≡ n
format_nat_injective m n h =
    sym (scan_digits-format_nat m) ∙ ap (scan_digits 0) h ∙ scan_digits-format_nat n

pub starts_with_digit-format_nat : (n : ℕ) → starts_with_digit (format_nat n) ≡ true
unfolding format_nat
starts_with_digit-format_nat n = starts_with_digit-digits (suc n) n [] (omega arith)

scan_nat_of_digit : (s : Text) → starts_with_digit s ≡ true → scan_nat s ≡ some (scan_digits 0 s)
unfolding scan_nat
scan_nat_of_digit s h = rw h

scan_int_of_digit : (s : Text) → starts_with_digit s ≡ true → scan_int s ≡ positive (scan_nat s)
unfolding scan_int
scan_int_of_digit [] h = ground arith
scan_int_of_digit (c ∷ s) h = ground arith

positive_of_le : (n : ℕ) → n ≤ max_int → positive (some n) ≡ some (pos n)
unfolding positive
positive_of_le n h = ground arith

scan_int-format_nat : (n : ℕ) → n ≤ max_int → scan_int (format_nat n) ≡ some (pos n)
scan_int-format_nat n h =
    scan_int_of_digit _ (starts_with_digit-format_nat n)
    ∙ ap positive
        (scan_nat_of_digit _ (starts_with_digit-format_nat n) ∙ ap some (scan_digits-format_nat n))
    ∙ positive_of_le n h

-- The resume token that a delay action writes for an action index is read back as that index.
pub scan_action-format_nat :
    (n : ℕ) → n ≤ max_int → scan_action (codes "ACTION_" ++ format_nat n) ≡ some (pos n)
unfolding scan_action
scan_action-format_nat n h = scan_int-format_nat n h

abbrev pub HasNoColon : Text → Type 0
HasNoColon = All (λ c. c ≢ b':')

last_digit : (n : ℕ) (out : Text) → ltb n 10 ≡ true → HasNoColon out → HasNoColon ((b'0' + n) ∷ out)
last_digit n out last h = ((λ e. ground arith), h)

digits_last : (f n : ℕ) (out : Text) → ltb n 10 ≡ true → (b'0' + n) ∷ out ≡ digits (suc f) n out
unfolding digits
digits_last f n out last = ground arith

digits_more :
    (f n : ℕ) (out : Text)
    → ltb n 10 ≡ false
    → digits f (n / 10) ((b'0' + n % 10) ∷ out) ≡ digits (suc f) n out
unfolding digits
digits_more f n out more = ground arith

digits-HasNoColon : (f n : ℕ) (out : Text) → HasNoColon out → HasNoColon (digits f n out)
digits-HasNoColon zero n out h = unfold digits in h
digits-HasNoColon (suc f) n out h = elim (Bool-cases (ltb n 10)) [
  | inl last ↦ subst HasNoColon (digits_last f n out last) (last_digit n out last h)
  | inr more ↦
      subst HasNoColon (digits_more f n out more)
        (digits-HasNoColon f (n / 10) ((b'0' + n % 10) ∷ out) ((λ e. absurd (omega arith)), h))
]

pub format_int-HasNoColon : (n : ℤ) → HasNoColon (format_int n)
unfolding format_int
format_int-HasNoColon (pos n) = digits-HasNoColon (suc n) n [] tt
format_int-HasNoColon (negsuc n) =
    ((λ e. ground arith), digits-HasNoColon (suc (suc n)) (suc n) [] tt)

-- a number begins with a digit, a negative one with a sign
no_sign : (n : ℕ) (s : Text) → format_nat n ≡ b'-' ∷ s → ⊥
unfolding starts_with_digit
no_sign n s h = ground (arith, starts_with_digit-format_nat n)

pub format_int_injective : (m n : ℤ) → format_int m ≡ format_int n → m ≡ n
unfolding format_int
format_int_injective (pos m) (pos n) h = ap pos (format_nat_injective m n h)
format_int_injective (pos m) (negsuc n) h = absurd (no_sign m _ h)
format_int_injective (negsuc m) (pos n) h = absurd (no_sign n _ (sym h))
format_int_injective (negsuc m) (negsuc n) h =
    let same = format_nat_injective (suc m) (suc n) (ground arith) in ground arith

-- ===== src/Handlers/Limits/Bounds.antt =====
-- The limits that the listings accept.
use dahlia.Common.{
  ℕ, zero, suc, ◌≤◌, ◌<◌, ℤ, pos, negsuc, ◌≡◌, refl, ◌⊎◌, inl, inr, Option, none, some, false, [],
  ◌∷◌, Text, is_empty, leb, if◌then◌else◌, arith,
}
use dahlia.Decimal.{atoi, format_nat, max_int}
use dahlia.Decimal.Atoi.{atoi-format_nat, is_empty-format_nat}
use dahlia.Handlers.Limits.{clamped, parse_limit}

clamped_bounds : (n : Option ℤ) → (1 ≤ clamped n) × (clamped n ≤ 100)
unfolding clamped
clamped_bounds none = omega arith
clamped_bounds (some (negsuc n)) = omega arith
clamped_bounds (some (pos zero)) = omega arith
clamped_bounds (some (pos (suc n))) = ground arith

-- Whatever text a client gives as the limit, the limit is between 1 and 100.
pub parse_limit_bounds : (s : Text) → (1 ≤ parse_limit s) × (parse_limit s ≤ 100)
unfolding parse_limit
parse_limit_bounds [] = omega arith
parse_limit_bounds (c ∷ s) = clamped_bounds (atoi (c ∷ s))

clamped_lem :
    (n : ℕ)
    → let limit = clamped (if leb n max_int then some (pos n) else none) in
      ((1 ≤ n) × (n ≤ 100) × (limit ≡ n))
      ⊎ ((100 < n) × (n ≤ max_int) × (limit ≡ 100))
      ⊎ (((n ≡ 0) ⊎ (max_int < n)) × (limit ≡ 50))
unfolding clamped
clamped_lem zero = inr (inr (inl refl, refl))
clamped_lem (suc n) = ground arith

parse_limit_of_text : (s : Text) → is_empty s ≡ false → parse_limit s ≡ clamped (atoi s)
unfolding parse_limit
parse_limit_of_text s h = rw h refl

-- The decimal digits of a number from 1 to 100 give that limit, those of a greater number give 100 as
-- long as it fits in 64 bits, and those of 0 or of any other number give 50.
pub parse_limit-format_nat :
    (n : ℕ)
    → let limit = parse_limit (format_nat n) in
      ((1 ≤ n) × (n ≤ 100) × (limit ≡ n))
      ⊎ ((100 < n) × (n ≤ max_int) × (limit ≡ 100))
      ⊎ (((n ≡ 0) ⊎ (max_int < n)) × (limit ≡ 50))
parse_limit-format_nat n =
    rw (parse_limit_of_text (format_nat n) (is_empty-format_nat n), atoi-format_nat n)
      (clamped_lem n)

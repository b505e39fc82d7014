-- ===== src/Handlers/Limits.antt =====
-- The limit of a listing, and what the listings share.
pub mod Bounds
use dahlia.Common.{
  ℕ, zero, suc, ℤ, pos, negsuc, String, Option, none, some, List, [], Text, lookup, is_empty, ltb,
  if◌then◌else◌,
}
use dahlia.Decimal.{atoi}
use dahlia.ErrorCollection.{ErrorCollection, new_error_collection, add_error}

-- m[key]
unfoldable pub value_of : Text → List (Text × Text) → Text
value_of key m = elim (lookup key m) [ none ↦ [] | some v ↦ v ]

clamped : Option ℤ → ℕ
clamped none = 50
clamped (some (negsuc n)) = 50
clamped (some (pos zero)) = 50
clamped (some (pos (suc n))) = if ltb 100 (suc n) then 100 else suc n

unfoldable pub parse_limit : Text → ℕ
unfolding clamped
parse_limit limit_str = if is_empty limit_str then 50 else clamped (atoi limit_str)

-- dto.PaginationResponse
pub record PaginationResponse : Type 0 where
  pub count : ℕ
  pub next_token : Text

-- a service that answers with one error
unfoldable pub refuse : {A : Type 0} → A → ℕ → String → A × Option ErrorCollection
refuse empty code message = (empty, some (add_error code message none new_error_collection))

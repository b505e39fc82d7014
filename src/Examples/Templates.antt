-- ===== src/Examples/Templates.antt =====
-- A message with one variable.
use dahlia.Common.{All, List, [], ◌∷◌, codes, false, ◌==◌, ==_iff, refl, ◌≡◌, ◌≢◌, ℕ, arith}
use dahlia.Template.{replace_match, build_variable_map, replace_template_variables}
use dahlia.Template.Filled.{
  Piece, plain, variable, filled, IsPiece, replace_template_variables-written,
}
use dahlia.Examples.Setting.{accepting, signal}

abbrev pieces : List Piece
pieces = plain (codes "a") ∷ variable (codes "{x") ∷ plain (codes "}") ∷ []

no_brace : (c d : ℕ) → (c == d) ≡ false → c ≢ d
no_brace c d other same = ground (arith, ==_iff c d)

x-IsPiece : IsPiece (variable (codes "{x"))
x-IsPiece = ((no_brace b'{' b'}' refl, (no_brace b'x' b'}' refl, tt)), λ e. ground arith)

pieces-IsPiece : All IsPiece pieces
pieces-IsPiece = (((no_brace b'a' b'{' refl, tt)), (x-IsPiece, ((no_brace b'}' b'{' refl, tt), tt)))

replace_template_variables-written_example :
    replace_template_variables accepting (codes "a{{{x}}}") signal []
    ≡ filled (replace_match accepting (build_variable_map signal []) signal) pieces
replace_template_variables-written_example =
    replace_template_variables-written accepting pieces signal [] pieces-IsPiece

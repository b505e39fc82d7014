-- ===== src/Template/Filled.antt =====
-- What a message template becomes.
use dahlia.Common.{
  ℕ, zero, suc, ◌+◌, ◌≤◌, false, none, some, List, [], ◌∷◌, ◌++◌, Text, length, length-append, All,
  ◌==◌, ==_iff, ◌≡◌, ◌≢◌, refl, ap, arith,
}
use dahlia.Domain.{Fields, Signal}
use dahlia.Runtime.{Env}
use dahlia.Template.{
  span_name, close_match, match_variable, replace_all, replace_match, build_variable_map,
  replace_template_variables,
}

-- A piece of a template: text, or the inside of a pair of double braces.
pub data Piece : Type 0 where
  plain variable : Text → Piece

-- the template that is written with the pieces
abbrev pub written : List Piece → Text
written [] = []
written (plain s ∷ pieces) = s ++ written pieces
written (variable raw ∷ pieces) = b'{' ∷ b'{' ∷ (raw ++ b'}' ∷ b'}' ∷ written pieces)

-- the text with something in the place of each variable
abbrev pub filled : (Text → Text) → List Piece → Text
filled replace [] = []
filled replace (plain s ∷ pieces) = s ++ filled replace pieces
filled replace (variable raw ∷ pieces) = replace raw ++ filled replace pieces

-- Plain text has no opening brace; a variable has no closing brace, and is not empty.
abbrev pub IsPiece : Piece → Type 0
IsPiece (plain s) = All (λ c. c ≢ b'{') s
IsPiece (variable raw) = All (λ c. c ≢ b'}') raw × (raw ≢ [])

different : (c d : ℕ) → c ≢ d → (c == d) ≡ false
different c d other = ground (arith, ==_iff c d)

span-variable :
    (raw rest : Text)
    → All (λ c. c ≢ b'}') raw
    → span_name (raw ++ b'}' ∷ b'}' ∷ rest) ≡ (raw, b'}' ∷ b'}' ∷ rest)
unfolding span_name
span-variable [] rest h = refl
span-variable (c ∷ raw) rest (other, h) = rw (different c b'}' other, span-variable raw rest h) refl

match-variable :
    (raw rest : Text)
    → IsPiece (variable raw)
    → match_variable (b'{' ∷ b'{' ∷ (raw ++ b'}' ∷ b'}' ∷ rest)) ≡ some (raw, rest)
unfolding match_variable close_match
match-variable [] rest (h, some_text) = absurd (some_text refl)
match-variable (c ∷ raw) rest (h, some_text) = rw (span-variable (c ∷ raw) rest h) refl

match-plain : (c : ℕ) (s : Text) → c ≢ b'{' → match_variable (c ∷ s) ≡ none
unfolding match_variable
match-plain c [] other = refl
match-plain c (d ∷ s) other = rw (different c b'{' other) refl

module _ (replace : Text → Text) where
  plain-filled :
      (s : Text) (fuel : ℕ) (rest out : Text)
      → All (λ c. c ≢ b'{') s
      → length s ≤ fuel
      → ((fuel' : ℕ) → fuel' + length s ≡ fuel → replace_all fuel' replace rest ≡ out)
      → replace_all fuel replace (s ++ rest) ≡ s ++ out
  unfolding replace_all
  plain-filled [] fuel rest out h enough goes_on = goes_on fuel (omega arith)
  plain-filled (c ∷ s) zero rest out h enough goes_on = absurd (omega (arith, enough))
  plain-filled (c ∷ s) (suc fuel) rest out (other, h) enough goes_on =
      rw (replace_all, match-plain c (s ++ rest) other)
        (ap (λ t. c ∷ t)
          (plain-filled s fuel rest out h (omega (arith, enough))
            (λ fuel' e. goes_on fuel' (omega (arith, e)))))

  pieces-filled :
      (pieces : List Piece) (fuel : ℕ)
      → All IsPiece pieces
      → length (written pieces) ≤ fuel
      → replace_all fuel replace (written pieces) ≡ filled replace pieces
  unfolding replace_all
  pieces-filled [] zero h enough = refl
  pieces-filled [] (suc fuel) h enough = refl
  pieces-filled (plain s ∷ pieces) fuel (p, h) enough =
      plain-filled s fuel (written pieces) (filled replace pieces) p
        (omega (arith, enough, length-append s (written pieces)))
        (λ fuel' e.
          pieces-filled pieces fuel' h (omega (arith, enough, e, length-append s (written pieces))))
  pieces-filled (variable raw ∷ pieces) zero (p, h) enough = absurd (omega (arith, enough))
  pieces-filled (variable raw ∷ pieces) (suc fuel) (p, h) enough =
      rw (replace_all, match-variable raw (written pieces) p)
        (ap (λ t. replace raw ++ t)
          (pieces-filled pieces fuel h
            (omega (arith, enough, length-append raw (b'}' ∷ b'}' ∷ written pieces)))))

-- A template that is made of plain text without opening braces and of variables in double braces, not
-- empty and without closing braces, becomes its plain text with what stands for each variable in its
-- place; what has been put in is not read again.
pub replace_template_variables-written :
    (env : Env) (pieces : List Piece) (signal : Signal) (run_context : Fields)
    → All IsPiece pieces
    → replace_template_variables env (written pieces) signal run_context
      ≡ filled (replace_match env (build_variable_map signal run_context) signal) pieces
unfolding replace_template_variables
replace_template_variables-written env pieces signal run_context h =
    pieces-filled _ pieces (length (written pieces)) h (omega arith)

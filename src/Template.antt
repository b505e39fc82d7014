-- ===== src/Template.antt =====
-- The message templates of internal/service/action_executor.go: {{variable}} is replaced by its value.
-- A text is its bytes; TrimSpace is modelled on the ASCII blanks.
pub mod Filled
use dahlia.Common.{
  ℕ, zero, suc, Bool, not, ◌&&◌, ◌||◌, Option, none, some, List, [], ◌∷◌, ◌++◌, Text, codes, length,
  is_empty, text_eq, lookup, insert, leb, ◌==◌, if◌then◌else◌,
}
use mathlib.Core.List.{reverse}
use dahlia.Domain.{Value, nil, string, Fields, Signal}
use dahlia.Runtime.{Env}

-- for k, v := range fields { variables[k] = v; variables[prefix+k] = v }
unfoldable pub add_fields : Text → Fields → Fields → Fields
unfolding insert
add_fields prefix [] variables = variables
add_fields prefix ((k, v) ∷ fields) variables =
    add_fields prefix fields (insert (prefix ++ k) v (insert k v variables))

unfoldable pub add_context : Fields → Fields → Fields
unfolding insert
add_context [] variables = variables
add_context ((k, v) ∷ context) variables = add_context context (insert k v variables)

unfoldable pub build_variable_map : Signal → Fields → Fields
unfolding add_fields add_context
build_variable_map signal run_context =
    let base : Fields =
      (codes "signal_id", string signal.signal_id)
      ∷ (codes "signal_type", string signal.signal_type)
      ∷ (codes "org_id", string signal.org_id)
      ∷ (codes "timestamp", string signal.timestamp)
      ∷ [] in
    add_context run_context (
      add_fields (codes "value.") signal.value
        (add_fields (codes "metadata.") signal.metadata base))

-- strings.Split(path, "."): the parts between the dots
unfoldable pub split_dots : Text → List Text
split_dots [] = [] ∷ []
split_dots (c ∷ s) = elim (split_dots s) [
  | [] ↦ (c ∷ []) ∷ []
  | part ∷ parts ↦ if c == b'.' then [] ∷ part ∷ parts else (c ∷ part) ∷ parts
]

-- `nil` where the path has no value, and where its value is nil.
nested_parts : List Text → Signal → Option Value
unfolding lookup
nested_parts (root ∷ name ∷ []) signal =
    if text_eq root (codes "value")
    then lookup name signal.value
    else if text_eq root (codes "metadata")
    then lookup name signal.metadata
    else none
nested_parts _ signal = none

or_nil : Option Value → Value
or_nil none = nil
or_nil (some v) = v

unfoldable pub get_nested_value : Text → Signal → Value
unfolding split_dots nested_parts or_nil
get_nested_value path signal = or_nil (nested_parts (split_dots path) signal)

is_space : ℕ → Bool
is_space c = c == b' ' || (leb 9 c && leb c 13)

drop_spaces : Text → Text
unfolding is_space
drop_spaces [] = []
drop_spaces (c ∷ s) = let rest = drop_spaces s in if is_space c then rest else c ∷ s

-- strings.TrimSpace
unfoldable pub trim_space : Text → Text
unfolding drop_spaces
trim_space s = reverse (drop_spaces (reverse (drop_spaces s)))

nested_text : Env → Value → Text → Text
nested_text env nil original = original
nested_text env v original = env.sprint v

variable_text : Env → Option Value → Text → Signal → Text → Text
unfolding get_nested_value nested_text
variable_text env (some v) name signal original = env.sprint v
variable_text env none name signal original =
    nested_text env (get_nested_value name signal) original

-- The text that stands for `{{raw}}`: a variable, a nested path, or the match itself.
unfoldable pub replace_match : Env → Fields → Signal → Text → Text
unfolding variable_text trim_space lookup
replace_match env variables signal raw =
    let name = trim_space raw in
    variable_text env (lookup name variables) name signal (b'{' ∷ b'{' ∷ raw ++ b'}' ∷ b'}' ∷ [])

-- The bytes up to the next `}`, and what follows them.
span_name : Text → Text × Text
span_name [] = ([], [])
span_name (c ∷ s) =
    let (name, rest) = span_name s in if c == b'}' then ([], c ∷ s) else (c ∷ name, rest)

close_match : Text × Text → Option (Text × Text)
close_match (name, c ∷ d ∷ rest) =
    if not (is_empty name) && c == b'}' && d == b'}' then some (name, rest) else none
close_match _ = none

-- A match of \{\{([^}]+)\}\} at the front of a text: its group, and what follows the match.
unfoldable pub match_variable : Text → Option (Text × Text)
unfolding span_name close_match
match_variable (c ∷ d ∷ s) =
    let found = close_match (span_name s) in if c == b'{' && d == b'{' then found else none
match_variable _ = none

-- ReplaceAllStringFunc: matches are taken from the left and do not overlap. Each round reads a byte
-- or a match, so the length of the text is fuel enough.
replace_all : ℕ → (Text → Text) → Text → Text
unfolding match_variable
replace_all zero replace s = s
replace_all (suc fuel) replace [] = []
replace_all (suc fuel) replace (c ∷ s) = elim (match_variable (c ∷ s)) [
  | none ↦ c ∷ replace_all fuel replace s
  | some (raw, rest) ↦ replace raw ++ replace_all fuel replace rest
]

unfoldable pub replace_template_variables : Env → Text → Signal → Fields → Text
unfolding replace_all replace_match build_variable_map
replace_template_variables env template signal run_context =
    let variables = build_variable_map signal run_context in
    replace_all (length template) (replace_match env variables signal) template

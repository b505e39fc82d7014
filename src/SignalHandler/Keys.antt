-- ===== src/SignalHandler/Keys.antt =====
-- The identifier of a signal is made of its type, organisation and time.
use dahlia.Common.{ℕ, ◌≡◌, ◌≢◌, sym, ap, ◌∙◌, ◌++◌, ◌∷◌, [], append_assoc, All, Text, arith}
use dahlia.Decimal.RoundTrip.{format_nat_injective}
use dahlia.SignalHandler.{signal_key}

-- A `#` in the signal type or the organisation moves the border between the two: signals of different
-- types and organisations get one identifier.
signal_key_shared :
    (a b c : Text) (timestamp : ℕ)
    → signal_key (a ++ b'#' ∷ b) c timestamp ≡ signal_key a (b ++ b'#' ∷ c) timestamp
unfolding signal_key
signal_key_shared a b c timestamp =
    append_assoc a (b'#' ∷ b) _ ∙ ap (λ s. a ++ b'#' ∷ s) (sym (append_assoc b (b'#' ∷ c) _))

abbrev pub HasNoSeparator : Text → Type 0
HasNoSeparator = All (λ c. c ≢ b'#')

hash_split :
    (a a' x x' : Text)
    → HasNoSeparator a
    → HasNoSeparator a'
    → a ++ b'#' ∷ x ≡ a' ++ b'#' ∷ x'
    → (a ≡ a') × (x ≡ x')
hash_split [] [] x x' h h' e = ground arith
hash_split [] (c ∷ a') x x' h (no_hash, h') e = ground arith
hash_split (c ∷ a) [] x x' (no_hash, h) h' e = ground arith
hash_split (c ∷ a) (d ∷ a') x x' (_, h) (_, h') e =
    let (same, rest) = hash_split a a' x x' h h' (ground arith) in (ground arith, rest)

-- Two signals with no `#` in their types and organisations have the same identifier only if they
-- have the same type, organisation and time.
pub signal_key_injective :
    (a c a' c' : Text) (timestamp timestamp' : ℕ)
    → HasNoSeparator a
    → HasNoSeparator c
    → HasNoSeparator a'
    → HasNoSeparator c'
    → signal_key a c timestamp ≡ signal_key a' c' timestamp'
    → (a ≡ a') × (c ≡ c') × (timestamp ≡ timestamp')
unfolding signal_key
signal_key_injective a c a' c' timestamp timestamp' ha hc ha' hc' e =
    let (same_type, rest) = hash_split a a' _ _ ha ha' e in
    let (same_org, digits) = hash_split c c' _ _ hc hc' rest in
    (same_type, same_org, format_nat_injective timestamp timestamp' digits)

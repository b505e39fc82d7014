-- ===== src/WorkflowManager/CacheKeys.antt =====
-- The keys of the cache tell the versions of the workflows apart.
use dahlia.Common.{ℤ, ◌≡◌, ◌++◌, ◌∷◌, [], Text, arith}
use dahlia.Decimal.RoundTrip.{format_int-HasNoColon, format_int_injective, HasNoColon}
use dahlia.WorkflowManager.{get_workflow_key}

colon_inside : (a x x' : Text) → HasNoColon x → x ≡ a ++ b':' ∷ x' → ⊥
colon_inside [] [] x' h e = ground arith
colon_inside [] (c ∷ x) x' (here, h) e = ground arith
colon_inside (c ∷ a) [] x' h e = ground arith
colon_inside (c ∷ a) (d ∷ x) x' (_, h) e = colon_inside a x x' h (ground arith)

colon_split :
    (a a' x x' : Text)
    → HasNoColon x
    → HasNoColon x'
    → a ++ b':' ∷ x ≡ a' ++ b':' ∷ x'
    → (a ≡ a') × (x ≡ x')
colon_split [] [] x x' h h' e = ground arith
colon_split [] (c ∷ a') x x' h h' e = absurd (colon_inside a' x x' h (ground arith))
colon_split (c ∷ a) [] x x' h h' e = absurd (colon_inside a x' x h' (ground arith))
colon_split (c ∷ a) (d ∷ a') x x' h h' e =
    let (same, rest) = colon_split a a' x x' h h' (ground arith) in (ground arith, rest)

-- Two cache keys are the same only for the same workflow id and the same version, whatever the ids
-- contain.
pub get_workflow_key_injective :
    (workflow_id workflow_id' : Text) (version version' : ℤ)
    → get_workflow_key workflow_id version ≡ get_workflow_key workflow_id' version'
    → (workflow_id ≡ workflow_id') × (version ≡ version')
unfolding get_workflow_key
get_workflow_key_injective workflow_id workflow_id' version version' e =
    let (same, digits) =
      colon_split workflow_id workflow_id' _ _ (format_int-HasNoColon version)
        (format_int-HasNoColon version') e in
    (same, format_int_injective version version' digits)

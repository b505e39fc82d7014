-- ===== src/Errors.antt =====
-- Go's error values: internal/repository/dynamodb/errors.go and the uses of fmt.Errorf.
-- An error carries its format text and arguments; %w keeps the error that it wraps.
use dahlia.Common.{ℕ, String, Bool, true, false, ◌||◌, List, Text}

pub data Error : Type 0 where
  -- errors.New, and fmt.Errorf with no %w
  errorf : String → List Text → Error
  -- fmt.Errorf with %w
  wrap : String → List Text → Error → Error
  optimistic_lock_failed not_found duplicate_signal : Error
  -- types.ConditionalCheckFailedException of the DynamoDB client
  conditional_check_failed : Error
  -- zk.ErrNodeExists and zk.ErrNoNode of the ZooKeeper client
  node_exists no_node : Error
  -- any other error that a library or service returns
  external : ℕ → Error

pub data Result {ℓ} (A : Type ℓ) : Type ℓ where
  ok : A → Result A
  err : Error → Result A

-- errors.Is and errors.As walk the chain of wrapped errors
unfoldable pub is_optimistic_lock_error : Error → Bool
is_optimistic_lock_error (wrap _ _ e) = is_optimistic_lock_error e
is_optimistic_lock_error optimistic_lock_failed = true
is_optimistic_lock_error _ = false

unfoldable pub is_not_found_error : Error → Bool
is_not_found_error (wrap _ _ e) = is_not_found_error e
is_not_found_error not_found = true
is_not_found_error _ = false

unfoldable pub as_conditional_check_failed : Error → Bool
as_conditional_check_failed (wrap _ _ e) = as_conditional_check_failed e
as_conditional_check_failed conditional_check_failed = true
as_conditional_check_failed _ = false

unfoldable pub is_duplicate_sentinel : Error → Bool
is_duplicate_sentinel (wrap _ _ e) = is_duplicate_sentinel e
is_duplicate_sentinel duplicate_signal = true
is_duplicate_sentinel _ = false

unfoldable pub is_duplicate_signal_error : Error → Bool
unfolding is_duplicate_sentinel as_conditional_check_failed
is_duplicate_signal_error e = is_duplicate_sentinel e || as_conditional_check_failed e

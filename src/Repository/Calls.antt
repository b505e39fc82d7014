-- ===== src/Repository/Calls.antt =====
-- The calls of the client, and what several repositories do with their answers.
use dahlia.Common.{
  ℕ, ◌-◌, ◌%◌, ◌^◌, ℤ, pos, negsuc, String, Option, List, [], ◌∷◌, Text, ltb, if◌then◌else◌,
}
use dahlia.Errors.{Result, ok, err}
use dahlia.Runtime.{
  Table, Item, Guard, Key, AttributeMap, Page, put, got, queried, scanned, Go, call, ask, lift,
  of_option, wrapping, ◌>>=◌,
}

-- int32(limit)
unfoldable pub int32 : ℕ → ℤ
int32 n = let m = n % 2 ^ 32 in if ltb m (2 ^ 31) then pos m else negsuc (2 ^ 32 - 1 - m)

-- The rows of a page and the token of the next one, "" at the end.
pub record PaginationResult (A : Type 0) : Type 0 where
  pub rows : List A
  pub next_token : Text

module _ {S : Type 0} where
  -- attributevalue.MarshalMap, with the repository's context of an error
  unfoldable pub marshal_map : String → Item → Go S (Unit {0})
  marshal_map context item = wrapping context (ask (λ env. of_option (env.marshal item)))

  unfoldable pub put_item : Table → Item → Guard → Go S (Unit {0})
  put_item table item guard = do
    outcome ← call (λ env t. env.put_item t table item guard) (put table item guard)
    of_option outcome

  unfoldable pub get_item : Table → Key → Go S (Option Item)
  get_item table key = do
    outcome ← call (λ env t. env.get_item t table key) (λ _. got table key)
    lift outcome

  unfoldable pub query : Table → Key → Option ℤ → Option AttributeMap → Go S Page
  query table key limit start = do
    outcome ← call (λ env t. env.query t table key limit start) (λ _. queried table key limit start)
    lift outcome

  unfoldable pub scan : Table → ℤ → Option AttributeMap → Go S Page
  scan table limit start = do
    outcome ← call (λ env t. env.scan t table limit start) (λ _. scanned table limit start)
    lift outcome

module _ {A : Type 0} where
  keep_ok : Result A → List A → List A
  keep_ok (ok a) rest = a ∷ rest
  keep_ok (err e) rest = rest

  -- an item that does not convert is logged and skipped
  unfoldable pub unmarshal_all : (Item → Result A) → List Item → List A
  unfolding keep_ok
  unmarshal_all unmarshal [] = []
  unmarshal_all unmarshal (item ∷ items) = keep_ok (unmarshal item) (unmarshal_all unmarshal items)

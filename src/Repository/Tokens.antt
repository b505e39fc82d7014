-- ===== src/Repository/Tokens.antt =====
-- encodeNextToken and decodeNextToken of run_repo.go, and the paged reads that use them.
pub mod RoundTrip
use dahlia.Common.{
  ℕ, ℤ, String, Option, none, some, List, [], ◌∷◌, ◌++◌, Text, codes, is_empty, ◌==◌, if◌then◌else◌,
}
use dahlia.Errors.{Error, errorf, wrap, Result, ok, err}
use dahlia.Runtime.{
  AttributeValue, member_s, member_n, member_b, member_other, AttributeMap, Item, Page, Env, Go,
  pure, ask, lift, attempt, wrapping, ◌>>=◌,
}
use dahlia.Repository.Calls.{PaginationResult, unmarshal_all}

abbrev map_result : {A B : Type 0} → (A → B) → Result A → Result B
map_result f (ok a) = ok (f a)
map_result f (err e) = err e

abbrev bind_result : {A B : Type 0} → Result A → (A → Result B) → Result B
bind_result (ok a) f = f a
bind_result (err e) f = err e

abbrev wrap_result : {A : Type 0} → String → List Text → Result A → Result A
wrap_result context args (ok a) = ok a
wrap_result context args (err e) = err (wrap context args e)

-- the text of one attribute: a prefix and its value
unfoldable pub encode_attribute : Env → AttributeValue → Result Text
encode_attribute env (member_s v) = ok (codes "S:" ++ v)
encode_attribute env (member_n v) = ok (codes "N:" ++ v)
encode_attribute env (member_b v) = ok (codes "B:" ++ env.base64_encode v)
encode_attribute env (member_other t) = err (errorf "unsupported attribute type: %T" [])

unfoldable pub simple_map : Env → AttributeMap → Result (List (Text × Text))
unfolding encode_attribute
simple_map env [] = ok []
simple_map env ((key, value) ∷ rest) =
    bind_result (encode_attribute env value)
      λ text. map_result (λ texts. (key, text) ∷ texts) (simple_map env rest)

-- A nil key gives "".
unfoldable pub encode_next_token : Env → Option AttributeMap → Result Text
unfolding simple_map
encode_next_token env none = ok []
encode_next_token env (some last_evaluated_key) =
    bind_result (simple_map env last_evaluated_key) λ m.
      map_result env.base64_encode (wrap_result "failed to json marshal" [] (env.marshal_map m))

decode_binary : Env → Text → Text → Result AttributeValue
decode_binary env key text =
    map_result member_b
      (wrap_result "failed to decode binary data for key %s" (key ∷ []) (env.base64_decode text))

-- The second byte is ':', the first one says the type.
decode_attribute : Env → Text → Text → Result AttributeValue
unfolding decode_binary
decode_attribute env key (prefix ∷ colon ∷ text) =
    if colon == b':'
    then if prefix == b'S'
      then ok (member_s text)
      else if prefix == b'N'
      then ok (member_n text)
      else if prefix == b'B'
      then decode_binary env key text
      else err (errorf "unsupported attribute type prefix: %s" ((prefix ∷ []) ∷ []))
    else err (errorf "invalid token format for key %s" (key ∷ []))
decode_attribute env key _ = err (errorf "invalid token format for key %s" (key ∷ []))

attribute_map : Env → List (Text × Text) → Result AttributeMap
unfolding decode_attribute
attribute_map env [] = ok []
attribute_map env ((key, text) ∷ rest) =
    bind_result (decode_attribute env key text)
      λ value. map_result (λ values. (key, value) ∷ values) (attribute_map env rest)

-- "" gives a nil key.
unfoldable pub decode_next_token : Env → Text → Result (Option AttributeMap)
unfolding attribute_map
decode_next_token env [] = ok none
decode_next_token env (c ∷ s) =
    bind_result (wrap_result "failed to decode next token" [] (env.base64_decode (c ∷ s))) λ json.
      bind_result (wrap_result "failed to unmarshal next token" [] (env.unmarshal_map json))
        λ m. map_result some (attribute_map env m)

abbrev or_empty : Result Text → Text
or_empty (ok token) = token
or_empty (err e) = []

module _ {S A : Type 0} where
  -- The tail that the paged reads share: decode the token, read from there, convert the items, and
  -- encode the key at which the read stopped ("" if that fails).
  unfoldable pub read_page :
      String
      → (Env → Item → Result A)
      → (Option AttributeMap → Go S Page)
      → Text
      → Go S (PaginationResult A)
  unfolding decode_next_token encode_next_token unmarshal_all
  read_page context unmarshal read next_token = do
    start ← wrapping "invalid next token" (ask (λ env. lift (decode_next_token env next_token)))
    page ← wrapping context (read start)
    ask (λ env. pure (record {
      rows = unmarshal_all (unmarshal env) page.items;
      next_token = or_empty (encode_next_token env page.last_evaluated_key);
    }))

-- ===== src/Repository/Tokens/RoundTrip.antt =====
-- A token is read back as the key that it was made from.
use mathlib.Core.List.{Permᴰ}
use mathlib.Core.List.Permᴰ
use dahlia.Common.{
  All, lookup, none, sym, ap, ◌∙◌, some, List, [], ◌∷◌, Text, ◌≡◌, ◌≢◌, refl, arith, ◌⊎◌, inl, inr,
}
use mathlib.Core.Path.{subst}
use dahlia.Errors.{Error, Result, ok, err}
use dahlia.Runtime.{AttributeValue, member_s, member_n, member_b, member_other, AttributeMap, Env}
use dahlia.Repository.Tokens.{
  encode_attribute, simple_map, encode_next_token, decode_attribute, attribute_map,
  decode_next_token,
}

-- A Go map as the list of its entries: no key comes twice.
abbrev pub HasDistinctKeys : List (Text × Text) → Type 0
HasDistinctKeys [] = Unit {0}
HasDistinctKeys ((key, _) ∷ m) = (lookup key m ≡ none) × HasDistinctKeys m

-- What the documentation of encoding/base64 and encoding/json says of decoding what was encoded.
-- Marshal writes the entries of a map in the order of their keys, and replaces what is not UTF-8
-- (`IsUtf8`), so a map of UTF-8 texts is read back with its entries in some order. No JSON object is
-- encoded as "".
pub record DecodesWhatItEncodes (env : Env) (IsUtf8 : Text → Type 0) : Type 0 where
  pub base64 : (s : Text) → env.base64_decode (env.base64_encode s) ≡ ok s
  pub not_empty :
      (m : List (Text × Text)) (s : Text) → env.marshal_map m ≡ ok s → env.base64_encode s ≢ []
  pub json :
      (m : List (Text × Text)) (s : Text)
      → HasDistinctKeys m
      → All (λ entry. IsUtf8 entry.0 × IsUtf8 entry.1) m
      → env.marshal_map m ≡ ok s
      → (m' : List (Text × Text)) × (env.unmarshal_map s ≡ ok m') × Permᴰ m m'

Result-cases : {A : Type 0} (r : Result A) → ((a : A) × (r ≡ ok a)) ⊎ ((e : Error) × (r ≡ err e))
Result-cases (ok a) = inl (a, refl)
Result-cases (err e) = inr (e, refl)

module _ (env : Env) (IsUtf8 : Text → Type 0) (laws : DecodesWhatItEncodes env IsUtf8) where
  decode_attribute-encode_attribute :
      (key : Text) (value : AttributeValue) (text : Text)
      → encode_attribute env value ≡ ok text
      → decode_attribute env key text ≡ ok value
  unfolding encode_attribute decode_attribute
  decode_attribute-encode_attribute key (member_s v) text h = ground arith
  decode_attribute-encode_attribute key (member_n v) text h = ground arith
  decode_attribute-encode_attribute key (member_b v) text h = ground (arith, laws.base64 v)
  decode_attribute-encode_attribute key (member_other n) text h = ground arith

  attribute_map-simple_map :
      (key : AttributeMap) (m : List (Text × Text))
      → simple_map env key ≡ ok m
      → attribute_map env m ≡ ok key
  unfolding simple_map attribute_map
  attribute_map-simple_map [] m h = ground arith
  attribute_map-simple_map ((key, value) ∷ rest) m h =
      elim (Result-cases (encode_attribute env value)) [
        | inl (text, e) ↦ elim (Result-cases (simple_map env rest)) [
          | inl (texts, es) ↦ ground (
            arith,
            decode_attribute-encode_attribute key value text,
            attribute_map-simple_map rest texts,
          )
          | inr (_, es) ↦ ground arith
        ]
        | inr (_, e) ↦ ground arith
      ]

  decode_of_parts :
      (token s : Text) (m : List (Text × Text)) (key : AttributeMap)
      → token ≢ []
      → env.base64_decode token ≡ ok s
      → env.unmarshal_map s ≡ ok m
      → attribute_map env m ≡ ok key
      → decode_next_token env token ≡ ok (some key)
  unfolding decode_next_token
  decode_of_parts [] s m key h d u a = absurd (h refl)
  decode_of_parts (c ∷ token) s m key h d u a = ground arith

  encoded_token :
      (key : AttributeMap) (m : List (Text × Text)) (s token : Text)
      → simple_map env key ≡ ok m
      → env.marshal_map m ≡ ok s
      → encode_next_token env (some key) ≡ ok token
      → env.base64_encode s ≡ token
  unfolding encode_next_token
  encoded_token key m s token e es h = ground arith

  attribute_map-cons :
      (key text : Text) (m : List (Text × Text)) (attributes : AttributeMap)
      → attribute_map env ((key, text) ∷ m) ≡ ok attributes
      → (value : AttributeValue) × (rest : AttributeMap) × (decode_attribute env key text
          ≡ ok value)
        × (attribute_map env m ≡ ok rest)
        × (attributes ≡ (key, value) ∷ rest)
  unfolding attribute_map
  attribute_map-cons key text m attributes h = elim (Result-cases (decode_attribute env key text)) [
    | inl (value, e) ↦ elim (Result-cases (attribute_map env m)) [
      | inl (rest, es) ↦ (value, rest, e, es, ground (arith, h, e, es))
      | inr (_, es) ↦ ground (arith, h, e, es)
    ]
    | inr (_, e) ↦ ground (arith, h, e)
  ]

  attribute_map_of :
      (key text : Text) (m : List (Text × Text)) (value : AttributeValue) (rest : AttributeMap)
      → decode_attribute env key text ≡ ok value
      → attribute_map env m ≡ ok rest
      → attribute_map env ((key, text) ∷ m) ≡ ok ((key, value) ∷ rest)
  unfolding attribute_map
  attribute_map_of key text m value rest e es = rw (e, es) refl

  -- the order of the entries does not matter
  attribute_map-Permᴰ :
      {m m' : List (Text × Text)} (key : AttributeMap)
      → Permᴰ m m'
      → attribute_map env m ≡ ok key
      → (key' : AttributeMap) × (attribute_map env m' ≡ ok key') × Permᴰ key key'
  attribute_map-Permᴰ key Permᴰ.nil h = (key, h, Permᴰ.refl key)
  attribute_map-Permᴰ key (Permᴰ.cons {a = (k, text)} {l₁ = m} {l₂ = m'} e p) h =
      let (value, rest, d, r, same) = attribute_map-cons k text m key h in
      let (rest', r', p') = attribute_map-Permᴰ rest p r in
      (
        (k, value) ∷ rest',
        subst (λ b. attribute_map env (b ∷ m') ≡ ok ((k, value) ∷ rest')) e
            (attribute_map_of k text m' value rest' d r'),
        subst (λ attributes. Permᴰ attributes ((k, value) ∷ rest')) (sym same) (Permᴰ.cons refl p'),
      )
  attribute_map-Permᴰ key (Permᴰ.swap {a = (k, text)} {b = (k₂, text₂)} {a' = a'} {l = m} e e₂) h =
      let (value, rest, d, r, same) = attribute_map-cons k text ((k₂, text₂) ∷ m) key h in
      let (value₂, rest₂, d₂, r₂, same₂) = attribute_map-cons k₂ text₂ m rest r in
      let swapped : AttributeMap = (k₂, value₂) ∷ (k, value) ∷ rest₂ in
      (
        swapped,
        subst (λ b. attribute_map env (a' ∷ b ∷ m) ≡ ok swapped) e
            (subst (λ a. attribute_map env (a ∷ (k, text) ∷ m) ≡ ok swapped) e₂
              (attribute_map_of k₂ text₂ ((k, text) ∷ m) value₂ ((k, value) ∷ rest₂) d₂
                (attribute_map_of k text m value rest₂ d r₂))),
        subst (λ attributes. Permᴰ attributes swapped)
            (sym (same ∙ ap (λ attributes. (k, value) ∷ attributes) same₂)) (Permᴰ.swap refl refl),
      )
  attribute_map-Permᴰ key (Permᴰ.trans p q) h =
      let (key', h', p') = attribute_map-Permᴰ key p h in
      let (key'', h'', q') = attribute_map-Permᴰ key' q h' in (key'', h'', Permᴰ.trans p' q')

  -- If base64 and JSON decode what they encode and no encoded JSON object is "": a token that a key
  -- with distinct names was encoded as is decoded as that key, up to the order of its attributes, if
  -- the map that was given to JSON is one of UTF-8 texts.
  pub decode_next_token-encode_next_token :
      (key : AttributeMap) (token : Text)
      → encode_next_token env (some key) ≡ ok token
      → ((m : List (Text × Text))
          → simple_map env key ≡ ok m
          → HasDistinctKeys m × All (λ entry. IsUtf8 entry.0 × IsUtf8 entry.1) m)
      → (key' : AttributeMap) × (decode_next_token env token ≡ ok (some key')) × Permᴰ key key'
  unfolding encode_next_token
  decode_next_token-encode_next_token key token h is_map =
      elim (Result-cases (simple_map env key)) [
        | inl (m, e) ↦ elim (Result-cases (env.marshal_map m)) [
          | inl (s, es) ↦
              let (distinct, utf8) = is_map m e in
              let (m', u, p) = laws.json m s distinct utf8 es in
              let (key', a, p') = attribute_map-Permᴰ key p (attribute_map-simple_map key m e) in
              (
                key',
                subst (λ t. decode_next_token env t ≡ ok (some key'))
                    (encoded_token key m s token e es h)
                    (decode_of_parts (env.base64_encode s) s m' key' (laws.not_empty m s es)
                      (laws.base64 s) u a),
                p',
              )
          | inr (_, es) ↦ ground arith
        ]
        | inr (_, e) ↦ ground arith
      ]

-- ===== src/Scheduler/Lists/Keys.antt =====
-- The keys of the lists of Redis.
use dahlia.Common.{
  ℕ, Bool-cases, false, [], ◌∷◌, ◌++◌, append_assoc, Text, codes, length, length-append, text_eq,
  text_eq_iff, text_eq_refl, ◌≡◌, ◌≢◌, refl, sym, ap, ◌∙◌, ◌⊎◌, inl, inr, arith,
}
use dahlia.Runtime.{Env}
use dahlia.Scheduler.{get_bucket_key, get_temp_key}

pub append_split : (a b x y : Text) → length a ≡ length b → a ++ x ≡ b ++ y → (a ≡ b) × (x ≡ y)
append_split [] [] x y l e = (refl, e)
append_split [] (d ∷ b) x y l e = absurd (omega (arith, l))
append_split (c ∷ a) [] x y l e = absurd (omega (arith, l))
append_split (c ∷ a) (d ∷ b) x y l e =
    let (same, rest) = append_split a b x y (omega (arith, l)) (ground arith) in
    (ground arith, rest)

pub right_cancel : (a b x : Text) → a ++ x ≡ b ++ x → a ≡ b
right_cancel a b x e =
    (append_split a b x x
      (omega (arith, length-append a x, length-append b x, ap (λ s. length s) e)) e).0

abbrev pub prefix : Text → Text
prefix stamp = codes "schedule:" ++ stamp ++ codes ":"

-- the minutes of two keys are as long as each other, so the minutes are the same, and what follows
pub key_split :
    (stamp stamp' node node' : Text)
    → length stamp ≡ length stamp'
    → prefix stamp ++ node ≡ prefix stamp' ++ node'
    → (stamp ≡ stamp') × (node ≡ node')
key_split stamp stamp' node node' l e =
    let (heads, nodes) =
      append_split (prefix stamp) (prefix stamp') node node'
        (omega (
          arith,
          l,
          length-append (codes "schedule:" ++ stamp) (codes ":"),
          length-append (codes "schedule:" ++ stamp') (codes ":"),
          length-append (codes "schedule:") stamp,
          length-append (codes "schedule:") stamp',
        ))
        e in
    let stamps =
      right_cancel (codes "schedule:" ++ stamp) (codes "schedule:" ++ stamp') (codes ":") heads in
    ((append_split (codes "schedule:") (codes "schedule:") stamp stamp' refl stamps).1, nodes)

pub bucket_key :
    (env : Env) (t : ℕ) → get_bucket_key env t ≡ prefix (env.minute_stamp t) ++ env.node_id
unfolding get_bucket_key
bucket_key env t = refl

pub temp_key :
    (env : Env) (t : ℕ)
    → get_temp_key env t ≡ prefix (env.minute_stamp t) ++ (env.node_id ++ codes "_TEMP")
unfolding get_temp_key
temp_key env t = append_assoc (prefix (env.minute_stamp t)) env.node_id (codes "_TEMP")

pub text_eq-false : (a b : Text) → a ≢ b → text_eq a b ≡ false
text_eq-false a b other = elim (Bool-cases (text_eq a b)) [
  | inl same ↦ absurd (other ((text_eq_iff a b).0 same))
  | inr differ ↦ differ
]

-- the two lists of one minute are not those of another
abbrev pub AreApart : (bucket temp bucket' temp' : Text) → Type 0
AreApart bucket temp bucket' temp' =
    (text_eq bucket bucket' ≡ false)
    × (text_eq bucket temp' ≡ false)
    × (text_eq temp bucket' ≡ false)
    × (text_eq temp temp' ≡ false)

module _ (env : Env) (width : (t u : ℕ) → length (env.minute_stamp t) ≡ length (env.minute_stamp u))
    (t u : ℕ) where
  longer : env.node_id ≢ env.node_id ++ codes "_TEMP"
  longer e = absurd (omega (arith, length-append env.node_id (codes "_TEMP"), ap (λ s. length s) e))

  split_keys :
      (k l node node' : Text)
      → k ≡ prefix (env.minute_stamp t) ++ node
      → l ≡ prefix (env.minute_stamp u) ++ node'
      → k ≡ l
      → (env.minute_stamp t ≡ env.minute_stamp u) × (node ≡ node')
  split_keys k l node node' hk hl e = key_split _ _ node node' (width t u) (sym hk ∙ e ∙ hl)

  pub bucket_not_temp : text_eq (get_bucket_key env t) (get_temp_key env u) ≡ false
  bucket_not_temp =
      text_eq-false _ _
        λ same. longer (split_keys _ _ _ _ (bucket_key env t) (temp_key env u) same).1

  pub temp_not_bucket : text_eq (get_temp_key env t) (get_bucket_key env u) ≡ false
  temp_not_bucket =
      text_eq-false _ _
        λ same. longer (sym (split_keys _ _ _ _ (temp_key env t) (bucket_key env u) same).1)

  pub stamps_apart :
      env.minute_stamp t ≢ env.minute_stamp u
      → AreApart
          (get_bucket_key env t)
          (get_temp_key env t)
          (get_bucket_key env u)
          (get_temp_key env u)
  stamps_apart differ = (
    text_eq-false _ _
        λ same. differ (split_keys _ _ _ _ (bucket_key env t) (bucket_key env u) same).0,
    bucket_not_temp,
    temp_not_bucket,
    text_eq-false _ _ λ same. differ (split_keys _ _ _ _ (temp_key env t) (temp_key env u) same).0,
  )

  stamps_same :
      env.minute_stamp t ≡ env.minute_stamp u
      → (get_bucket_key env t ≡ get_bucket_key env u) × (get_temp_key env t ≡ get_temp_key env u)
  stamps_same same = (
    bucket_key env t ∙ ap (λ s. prefix s ++ env.node_id) same ∙ sym (bucket_key env u),
    temp_key env t
        ∙ ap (λ s. prefix s ++ (env.node_id ++ codes "_TEMP")) same
        ∙ sym (temp_key env u),
  )

  -- two instants have the same lists, or lists that are apart
  pub same_or_apart :
      ((get_bucket_key env t ≡ get_bucket_key env u) × (get_temp_key env t ≡ get_temp_key env u))
      ⊎ AreApart
          (get_bucket_key env t)
          (get_temp_key env t)
          (get_bucket_key env u)
          (get_temp_key env u)
  same_or_apart = elim (Bool-cases (text_eq (env.minute_stamp t) (env.minute_stamp u))) [
    | inl same ↦ inl (stamps_same ((text_eq_iff _ _).0 same))
    | inr differ ↦
        inr (stamps_apart λ e. ground (arith, differ, e, text_eq_refl (env.minute_stamp u)))
  ]

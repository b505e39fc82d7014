-- ===== src/ErrorCollection/Statuses.antt =====
-- The HTTP status of an answer.
use dahlia.Common.{
  ◌≤◌, ◌<◌, Option, none, some, List, [], ◌∷◌, ◌≡◌, refl, ◌⊎◌, inl, inr, All, Bool-cases, leb,
  arith,
}
use dahlia.ErrorCollection.{ErrorCollection, ResponseError, status_of, respond, success, failed}

-- No error before `e` has a code from 400 on.
abbrev pub IsFirst : ResponseError → List ResponseError → Type 0
IsFirst e [] = ⊥
IsFirst e (f ∷ errors) =
    ((f ≡ e) × (400 ≤ e.error_code)) ⊎ ((f.error_code < 400) × IsFirst e errors)

status_of_cases :
    (errors : List ResponseError)
    → ((status_of errors ≡ 400) × All (λ e. e.error_code < 400) errors)
      ⊎ ((e : ResponseError) × IsFirst e errors
          × (((500 ≤ e.error_code) × (status_of errors ≡ 500))
              ⊎ ((e.error_code < 500) × (status_of errors ≡ 400))))
unfolding status_of
status_of_cases [] = inl (refl, tt)
status_of_cases (e ∷ errors) = elim (Bool-cases (leb 500 e.error_code)) [
  | inl server ↦ inr (e, inl (refl, ground arith), inl (ground arith, ground arith))
  | inr h ↦ elim (Bool-cases (leb 400 e.error_code)) [
    | inl client ↦ inr (e, inl (refl, ground arith), inr (ground arith, ground arith))
    | inr none_here ↦ elim (status_of_cases errors) [
      | inl (status, all) ↦ inl (ground arith, (ground arith, all))
      | inr (first, is_first, inl (server, status)) ↦
          inr (first, inr (ground arith, is_first), inl (server, ground arith))
      | inr (first, is_first, inr (client, status)) ↦
          inr (first, inr (ground arith, is_first), inr (client, ground arith))
    ]
  ]
]

errors_status :
    {A : Type 0} (content : A) (errors : List ResponseError)
    → let n = (respond content (some (record { errors = errors }))).http_status in
      (n ≡ 200) ⊎ (n ≡ 400) ⊎ (n ≡ 500)
unfolding respond
errors_status content [] = inl refl
errors_status content (e ∷ errors) = elim (status_of_cases (e ∷ errors)) [
  | inl (h, _) ↦ inr (inl h)
  | inr (first, _, inl (_, h)) ↦ inr (inr h)
  | inr (first, _, inr (_, h)) ↦ inr (inl h)
]

-- the statuses that an answer can have
pub respond_status :
    {A : Type 0} (content : A) (ec : Option ErrorCollection)
    → let n = (respond content ec).http_status in (n ≡ 200) ⊎ (n ≡ 400) ⊎ (n ≡ 500)
respond_status content none = unfold respond in inl refl
respond_status content (some ec) = errors_status content ec.errors

-- The answer is a success with status 200 and no error if there is no collection or it is empty.
-- Otherwise it is a failure with the errors of the collection, and its HTTP status is 500 if the first
-- error with a code from 400 on has a code from 500 on, and 400 in every other case, that of a
-- missing resource included.
pub respond_lem :
    {A : Type 0} (content : A) (e : ResponseError) (errors : List ResponseError)
    → let empty = respond content (some (record { errors = [] })) in
      let answer = respond content (some (record { errors = e ∷ errors })) in
      (respond content none ≡ empty)
      × (empty.http_status ≡ 200)
      × (empty.status ≡ success)
      × (empty.errors ≡ [])
      × (answer.status ≡ failed)
      × (answer.errors ≡ e ∷ errors)
      × (((answer.http_status ≡ 400) × All (λ e. e.error_code < 400) (e ∷ errors))
          ⊎ ((first : ResponseError) × IsFirst first (e ∷ errors)
              × (((500 ≤ first.error_code) × (answer.http_status ≡ 500))
                  ⊎ ((first.error_code < 500) × (answer.http_status ≡ 400)))))
unfolding respond
respond_lem content e errors = (refl, refl, refl, refl, refl, refl, status_of_cases (e ∷ errors))

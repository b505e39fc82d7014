-- ===== src/Examples/Services.antt =====
-- The other services.
use dahlia.Common.{
  Text, true, false, ◌+◌, ◌≤◌, ◌<◌, ℕ, pos, none, some, List, [], ◌∷◌, ◌++◌, ◌≡◌, refl, ◌⊎◌, codes,
  lookup, text_eq, All, ◌≢◌, arith,
}
use dahlia.Errors.{ok}
use dahlia.Domain.{Signal, Condition, absence, nil, Workflow, ScheduledJob}
use dahlia.Runtime.{member_n, Time, World, AttributeMap, member_s, returned, read_clock, ◌>>=◌}
use dahlia.Decimal.{format_nat, scan_action}
use dahlia.Decimal.RoundTrip.{scan_action-format_nat}
use dahlia.Repository.Tokens.{decode_next_token, encode_next_token, simple_map}
use dahlia.Repository.Tokens.RoundTrip.{HasDistinctKeys, decode_next_token-encode_next_token}
use dahlia.Repository.Jobs
use dahlia.Repository.Workflows
use dahlia.Scheduler.{truncate_minute, adjusted, schedule_job, process_job}
use dahlia.Scheduler.Minutes.{adjusted_bounds}
use dahlia.Scheduler.Order.{IsInOrder, schedule_job_lem}
use dahlia.Scheduler.Delivery.{IsHandled, process_job_lem}
use dahlia.Repository.Signals.{get_signals_since}
use dahlia.ConditionEvaluator.{parse_duration, evaluate_absence}
use dahlia.ConditionEvaluator.Absence.{evaluate_absence_lem}
use dahlia.SignalHandler.{keep_latest}
use dahlia.SignalHandler.Latest.{HasNoNewer, keep_latest_lem}
use dahlia.SignalHandler.Keys.{signal_key_injective}
use dahlia.WorkflowManager.{get_workflow}
use dahlia.WorkflowManager.Coherence.{get_workflow_again}
use dahlia.ErrorCollection.{ResponseError, respond, success, failed}
use dahlia.ErrorCollection.Statuses.{IsFirst, respond_lem}
use dahlia.Examples.Setting.{
  signal, workflow, job, accepting, refusing, start, accepting-DecodesWhatItEncodes, IsAnyText,
}
use mathlib.Core.List.{Memᴰ, Permᴰ}
use mathlib.Core.Path.{subst}
use dahlia.Examples.Codec.{entries_to_text}

scan_action-format_nat_example : scan_action (codes "ACTION_" ++ format_nat 12) ≡ some (pos 12)
scan_action-format_nat_example = scan_action-format_nat 12 (omega arith)

-- the key of a page of the index by workflow: two texts and a number
abbrev last_key : AttributeMap
last_key =
    (codes "run_id", member_s (codes "r7"))
    ∷ (codes "created_at", member_n (codes "60500"))
    ∷ (codes "workflow_id", member_s (codes "w"))
    ∷ []

abbrev last_texts : List (Text × Text)
last_texts =
    (codes "run_id", codes "S:r7")
    ∷ (codes "created_at", codes "N:60500")
    ∷ (codes "workflow_id", codes "S:w")
    ∷ []

last_key-IsMap :
    (m : List (Text × Text))
    → simple_map accepting last_key ≡ ok m
    → HasDistinctKeys m × All (λ entry. IsAnyText entry.0 × IsAnyText entry.1) m
unfolding simple_map text_eq lookup
last_key-IsMap m h =
    subst (λ l. HasDistinctKeys l × All (λ entry. IsAnyText entry.0 × IsAnyText entry.1) l)
      (last_texts-same m h) ((refl, (refl, (refl, tt))), ((tt, tt), ((tt, tt), ((tt, tt), tt))))
  where
    last_texts-same : (m : List (Text × Text)) → ok last_texts ≡ ok m → last_texts ≡ m
    last_texts-same m h = ground arith

decode_next_token-encode_next_token_example :
    (key' : AttributeMap) × (decode_next_token accepting (b'=' ∷ entries_to_text last_texts)
      ≡ ok (some key'))
    × Permᴰ last_key key'
unfolding encode_next_token
decode_next_token-encode_next_token_example =
    decode_next_token-encode_next_token accepting IsAnyText accepting-DecodesWhatItEncodes last_key
      (b'=' ∷ entries_to_text last_texts) refl last_key-IsMap

adjusted_bounds_example :
    (60500 < truncate_minute (adjusted 60500 60100))
    × (truncate_minute (adjusted 60500 60100) ≤ adjusted 60500 60100)
    × (((truncate_minute 60500 < truncate_minute 60100) × (adjusted 60500 60100 ≡ 60100))
        ⊎ ((truncate_minute 60100 ≤ truncate_minute 60500)
            × (adjusted 60500 60100 ≡ truncate_minute 60500 + 60000)))
adjusted_bounds_example = adjusted_bounds 60500 60100

schedule_job_lem_example :
    let (r, w') = schedule_job accepting (start job) in
    let moved : ScheduledJob = record job { execute_at = adjusted 60500 70000 } in
    (w'.local ≡ moved) × IsInOrder accepting moved (read_clock 60500 ∷ []) r w'.trace
schedule_job_lem_example = schedule_job_lem accepting (start job)

process_job_lem_example :
    let (r, w') = process_job (codes "j") (codes "T") accepting (start job) in
    (r ≡ returned tt)
    × IsHandled accepting
        (codes "j")
        (codes "T")
        (Jobs.get_by_id (codes "j") accepting (start job)).0
        []
        w'.trace
process_job_lem_example = process_job_lem (codes "j") (codes "T") accepting (start job)

abbrev two_versions : List Workflow
two_versions = workflow (codes "w") (pos 2) ∷ workflow (codes "w") (pos 1) ∷ []

keep_latest_lem_example :
    ((lookup (codes "w") (keep_latest two_versions []) ≡ none)
      × All (λ workflow. workflow.workflow_id ≢ codes "w") two_versions)
    ⊎ ((kept : Workflow) × (lookup (codes "w") (keep_latest two_versions []) ≡ some kept)
        × (kept.workflow_id ≡ codes "w")
        × HasNoNewer (codes "w") kept two_versions
        × Memᴰ kept two_versions)
keep_latest_lem_example = keep_latest_lem two_versions (codes "w")

cached :
    (get_workflow (codes "w") (pos 1) accepting (start job)).0
    ≡ returned (workflow (codes "w") (pos 1))
unfolding get_workflow Workflows.get_by_id ◌>>=◌ lookup
cached = refl

get_workflow_again_example :
    let w' = (get_workflow (codes "w") (pos 1) accepting (start job)).1 in
    get_workflow (codes "w") (pos 1) refusing w' ≡ (returned (workflow (codes "w") (pos 1)), w')
get_workflow_again_example =
    get_workflow_again (codes "w") (pos 1) accepting refusing (start job)
      (workflow (codes "w") (pos 1)) cached

abbrev not_found : ResponseError
not_found = record { error_code = 404; message = "no such run"; data_error = none }

respond_lem_example :
    let empty = respond tt (some (record { errors = [] })) in
    let answer = respond tt (some (record { errors = not_found ∷ [] })) in
    (respond tt none ≡ empty)
    × (empty.http_status ≡ 200)
    × (empty.status ≡ success)
    × (empty.errors ≡ [])
    × (answer.status ≡ failed)
    × (answer.errors ≡ not_found ∷ [])
    × (((answer.http_status ≡ 400) × All (λ e. e.error_code < 400) (not_found ∷ []))
        ⊎ ((first : ResponseError) × IsFirst first (not_found ∷ [])
            × (((500 ≤ first.error_code) × (answer.http_status ≡ 500))
                ⊎ ((first.error_code < 500) × (answer.http_status ≡ 400)))))
respond_lem_example = respond_lem tt not_found []

plain_a : ◌≢◌ {A = ℕ} b'a' b'#'
plain_a h = ground arith

plain_c : ◌≢◌ {A = ℕ} b'c' b'#'
plain_c h = ground arith

signal_key_injective_example : (codes "a" ≡ codes "a") × (codes "c" ≡ codes "c") × (◌≡◌ {A = ℕ} 7 7)
signal_key_injective_example =
    signal_key_injective (codes "a") (codes "c") (codes "a") (codes "c") 7 7 (plain_a, tt)
      (plain_c, tt) (plain_a, tt) (plain_c, tt) refl

abbrev quiet_hour : Condition
quiet_hour = record {
  type = absence;
  field = [];
  operator = [];
  value = nil;
  duration = codes "1h";
}

abbrev sent_at : Time
sent_at = record { unix_milli = 5; offset = pos 0 }

abbrev now_here : Time
now_here = record { unix_milli = 60500; offset = pos 3600 }

-- the query that the condition makes finds nothing
abbrev asked : World ScheduledJob
asked =
    (get_signals_since (codes "order") (codes "acme") sent_at now_here accepting
      (record (start job) { trace = read_clock 60500 ∷ [] })).1

reads_duration : parse_duration accepting (codes "1h") ≡ ok (pos 5000000000)
unfolding parse_duration
reads_duration = refl

finds_nothing :
    get_signals_since
      (codes "order")
      (codes "acme")
      sent_at
      now_here
      accepting
      (record (start job) { trace = read_clock 60500 ∷ [] })
    ≡ (returned [], asked)
unfolding get_signals_since ◌>>=◌
finds_nothing = refl

evaluate_absence_lem_example :
    ((evaluate_absence quiet_hour signal accepting (start job) ≡ (returned true, asked))
      × All (λ (s : Signal). s.signal_id ≡ signal.signal_id) [])
    ⊎ ((evaluate_absence quiet_hour signal accepting (start job) ≡ (returned false, asked))
        × (s : Signal) × Memᴰ s []
        × (s.signal_id ≢ signal.signal_id))
evaluate_absence_lem_example =
    evaluate_absence_lem quiet_hour signal (pos 5000000000) sent_at [] accepting (start job) asked
      reads_duration refl finds_nothing

-- ===== src/Scheduler/Passes.antt =====
-- What a pass of the scheduler does with all the jobs of a list.
use dahlia.Common.{List, [], ◌∷◌, ◌≡◌, refl, sym, ap, Text}
use mathlib.Core.Path.{subst}
use dahlia.Runtime.{Env, World, Exit, returned, pure}
use dahlia.Runtime.Steps.{bind-returned}
use dahlia.Repository.Jobs
use dahlia.Scheduler.{process_job, process_jobs}
use dahlia.Scheduler.Delivery.{IsHandled, process_job_lem}

-- The jobs of a list are handled one after the other, each from the world that the one before left.
pub data IsPass {S : Type 0} (env : Env) (temp_key : Text)
    : List Text → World S → World S → Type 0 where
  ended : {w : World S} → IsPass env temp_key [] w w
  next :
      {job_id : Text} {job_ids : List Text} {w w₁ w₂ : World S}
      → IsHandled env job_id temp_key (Jobs.get_by_id job_id env w).0 w.trace w₁.trace
      → IsPass env temp_key job_ids w₁ w₂
      → IsPass env temp_key (job_id ∷ job_ids) w w₂

abbrev IsWhole :
    {S : Type 0} → Env → Text → List Text → World S → Exit (Unit {0}) × World S → Type 0
IsWhole env temp_key job_ids w (r, w') = (r ≡ returned tt) × IsPass env temp_key job_ids w w'

-- Processing the jobs of a list returns, whatever the outside answers, and handles every job of the
-- list in its order: a job that cannot be read or sent does not keep the later ones waiting.
pub process_jobs_lem :
    {S : Type 0} (job_ids : List Text) (temp_key : Text) (env : Env) (w : World S)
    → let (r, w') = process_jobs job_ids temp_key env w in
      (r ≡ returned tt) × IsPass env temp_key job_ids w w'
unfolding process_jobs pure
process_jobs_lem [] temp_key env w = (refl, ended)
process_jobs_lem (job_id ∷ job_ids) temp_key env w =
    let w' = (process_job job_id temp_key env w).1 in
    let (exit, handled) = process_job_lem job_id temp_key env w in
    let (exits, pass) = process_jobs_lem job_ids temp_key env w' in
    subst (λ p. IsWhole env temp_key (job_id ∷ job_ids) w p)
      (sym (
        bind-returned (process_job job_id temp_key) (λ _. process_jobs job_ids temp_key) env w w' tt
          (ap (λ r. (r, w')) exit)))
      (exits, next handled pass)

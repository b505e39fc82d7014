-- ===== src/Examples/Goroutines.antt =====
-- A lookup of one workflow, which is not in memory, beside a refresh.
use dahlia.Common.{ℕ, pos, none, some, codes, lookup, ◌≡◌, true, refl, ◌⊎◌, arith}
use dahlia.Domain.{Workflow}
use dahlia.WorkflowManager.Shared.{
  Request, one, refresh, found, cached, keep_one, reading, waiting, checking, loading, served, look,
  begin_refresh, miss, lock, miss_again, load_one, System, set_pc, pick, init, Reach, here, next,
}
use dahlia.WorkflowManager.Shared.Sound.{HasOneType}
use dahlia.WorkflowManager.Shared.Right.{IsRight}
use dahlia.WorkflowManager.Shared.Served.{replies-IsRight}
use dahlia.WorkflowManager.Shared.Exclusive.{inside, is_open, CanMove, never_stuck}
use dahlia.Examples.Setting.{workflow}

abbrev stored_workflow : Workflow
stored_workflow = workflow (codes "w") (pos 1)

abbrev IsThis : Workflow → Type 0
IsThis w = w ≡ stored_workflow

IsThis-HasOneType : HasOneType IsThis
IsThis-HasOneType v w is_v is_w same_id same_version = ground arith

abbrev asked : Request
asked = one (codes "w") (pos 1)

-- goroutine 0 has missed, and goroutine 1 wants to refresh
abbrev both_waiting : System
both_waiting = record {
  mem = init.mem;
  pc = set_pc (set_pc (set_pc init.pc 0 (reading asked)) 0 (waiting asked)) 1 (waiting refresh);
}

Reach-waiting : Reach IsThis init both_waiting
unfolding set_pc cached lookup
Reach-waiting =
    next (next (next here (pick 0 look)) (pick 0 (miss refl refl))) (pick 1 begin_refresh)

abbrev querying : System
querying = record {
  mem = record { owner = some 0; cache = init.mem.cache };
  pc = set_pc (set_pc both_waiting.pc 0 (checking asked)) 0 (loading asked);
}

Reach-querying : Reach IsThis init querying
unfolding set_pc cached lookup
Reach-querying = next (next Reach-waiting (pick 0 (lock refl))) (pick 0 (miss_again refl))

abbrev answered : System
answered = record {
  mem = record {
    owner = none;
    cache = keep_one (codes "w") (pos 1) stored_workflow init.mem.cache;
  };
  pc = set_pc querying.pc 0 (served asked (found stored_workflow));
}

Reach-answered : Reach IsThis init answered
unfolding set_pc
Reach-answered = next Reach-querying (pick 0 (load_one stored_workflow refl refl refl))

replies-IsRight_example : IsRight IsThis asked (found stored_workflow)
unfolding set_pc
replies-IsRight_example =
    replies-IsRight IsThis 0 asked (found stored_workflow) answered IsThis-HasOneType Reach-answered
      refl

never_stuck_example :
    (i : ℕ) × (is_open (querying.pc i) ≡ true)
    × CanMove IsThis i querying.mem (querying.pc i)
    × (((querying.mem.owner ≡ none) × (i ≡ 1))
        ⊎ ((querying.mem.owner ≡ some i) × (inside (querying.pc i) ≡ true)))
unfolding set_pc
never_stuck_example = never_stuck IsThis 1 querying Reach-querying refl

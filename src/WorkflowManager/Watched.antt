-- ===== src/WorkflowManager/Watched.antt =====
-- Start and Stop of the workflow manager, and what its watch of the refresh trigger does.
use dahlia.Common.{Bool, true, Text, codes, if◌then◌else◌}
use dahlia.Runtime.{Go, panic, get, modify, ignore, wrapping, ◌>>=◌, ◌>>◌}
use dahlia.Coordinator.{Coordinator, Handler, handle_refresh_trigger, watch_node}
use dahlia.WorkflowManager.{refresh_cache}

-- the handler of a watch; an error of the refresh is logged
unfoldable pub run_handler : {S : Type 0} → Handler → Text → Go S (Unit {0})
unfolding refresh_cache
run_handler handle_refresh_trigger bytes = ignore refresh_cache

unfoldable pub start : Go Coordinator (Unit {0})
unfolding refresh_cache watch_node
start = do
  wrapping "failed initial cache load" refresh_cache
  ignore (watch_node (codes "/workflows/refresh") handle_refresh_trigger)

-- Stop: whether stopCh is closed; closing it again panics
closing : Bool → Go Bool (Unit {0})
closing stopped = if stopped then panic else modify (λ _. true)

unfoldable pub stop : Go Bool (Unit {0})
unfolding closing
stop = do stopped ← get; closing stopped

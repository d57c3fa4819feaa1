-- ===== src/Controller/Tick/Execution.antt =====
-- internal/cluster/lifecycle.go: executeRunningLocked.
use cs320_cluster_process_ma.Base.{
  pos, String, List, [], ◌∷◌, some, ltb_ℤ, sub_int, if◌then◌else◌, lookup, sort_by, before, Dict,
  Action, get, pure, modify, or_panic, ignore, ◌>>=◌, ◌>>◌, string_eq,
}
use cs320_cluster_process_ma.Domain.Types.{ProcessState, EventType}
use cs320_cluster_process_ma.Domain.Process.{Process}
use cs320_cluster_process_ma.Controller.State.{Controller, store_process, emit, transition_to}
use cs320_cluster_process_ma.Controller.Processes.{is_running, release_locked}

-- The identifiers of the running processes.
abbrev pub running_ids : Dict String Process → List String
running_ids [] = []
running_ids ((id, p) ∷ ps) =
    let rest = running_ids ps in if is_running p.state then id ∷ rest else rest

module _ {F : Type 0} where
  -- A process whose work is done: a `continue` after an error leaves what was done before it.
  unfoldable pub complete : Process → Action (Controller F) Unit
  complete p = do
    q ← release_locked p
    r ← transition_to q ProcessState.terminated
    c ← get
    modify (store_process (record r { finished_at_tick = some c.current_tick }))
    emit EventType.process_completed "info" r.id "" "process completed"

  -- The loop's body after `process.RemainingTicks--`.
  unfoldable pub worked : Process → Action (Controller F) Unit
  worked p = do
    modify (store_process p)
    if ltb_ℤ (pos 0) p.remaining_ticks then pure tt else ignore (complete p)

  unfoldable pub execute : List String → Action (Controller F) Unit
  execute [] = pure tt
  execute (id ∷ ids) = do
    c ← get
    p ← or_panic (lookup id c.processes)
    worked (record p { remaining_ticks = sub_int p.remaining_ticks (pos 1) })
    execute ids

  unfoldable pub execute_running : Action (Controller F) Unit
  execute_running c = execute (sort_by before (running_ids c.processes)) c

-- ===== src/Controller/Outcome/Effects/Submit.antt =====
-- internal/cluster/lifecycle.go: SubmitProcess.
use cs320_cluster_process_ma.Base.{
  ℕ, ◌+◌, ℤ, pos, negsuc, Error, trim_space, true, false, ◌≡◌, refl, inl, inr, some, lookup, insert,
  size, has_key, has_key-none, ok, err, Result, string_eq, leb_ℤ, Bool-cases, lookup-insert_self,
  arith, invalid_input, duplicate_process,
}
use cs320_cluster_process_ma.Domain.Types.{ProcessState}
use cs320_cluster_process_ma.Domain.Process.{
  Process, ProcessDefinition, transition, draft, validate, new_process,
}
use cs320_cluster_process_ma.Controller.State.{Controller, emitted}
use cs320_cluster_process_ma.Controller.Registry.{is_completed}
use cs320_cluster_process_ma.Controller.Processes.{submit_process}
use cs320_cluster_process_ma.Controller.Scenario.Rounds.{size-insert}
use cs320_cluster_process_ma.Controller.Invariant.Facts.{IsConsistent}
use cs320_cluster_process_ma.Controller.Consistency.Commands.{submit_process-IsConsistent}
use cs320_cluster_process_ma.Controller.Outcome.Effects.{KeepsOthers, KeepsOthers-insert}

-- The process that a definition describes, in the ready queue since a tick.
abbrev pub queued : ProcessDefinition → ℤ → Process
queued def tick = record (draft def tick) { state = ProcessState.ready }

-- What a submission adds.
pub record IsAdded {F : Type 0} (c : Controller F) (q : Process) (d : Controller F) : Type 0 where
  pub found : lookup q.id d.processes ≡ some q
  pub others : KeepsOthers q.id c.processes d.processes
  pub larger : size d.processes ≡ size c.processes + 1
  pub within : leb_ℤ (pos (size d.processes)) d.max_processes ≡ true
  pub limit : d.max_processes ≡ c.max_processes
  pub open_again : is_completed d.simulation_status ≡ false

-- The outcome of SubmitProcess: the controller is full, the definition is invalid, its trimmed
-- identifier is taken, or the process is added.
pub record IsSubmission {F : Type 0} (c : Controller F) (def : ProcessDefinition)
    (r : Result Process) (d : Controller F) : Type 0 where
  pub full :
      leb_ℤ c.max_processes (pos (size c.processes)) ≡ true → (r ≡ err invalid_input) × (d ≡ c)
  pub invalid :
      (e : Error)
      → leb_ℤ c.max_processes (pos (size c.processes)) ≡ false
      → validate (draft def c.current_tick) ≡ err e
      → (r ≡ err e) × (d ≡ c)
  pub taken :
      leb_ℤ c.max_processes (pos (size c.processes)) ≡ false
      → validate (draft def c.current_tick) ≡ ok tt
      → has_key (trim_space def.id) c.processes ≡ true
      → (r ≡ err duplicate_process) × (d ≡ c)
  pub done :
      leb_ℤ c.max_processes (pos (size c.processes)) ≡ false
      → validate (draft def c.current_tick) ≡ ok tt
      → has_key (trim_space def.id) c.processes ≡ false
      → (r ≡ ok (queued def c.current_tick)) × IsAdded c (queued def c.current_tick) d
  pub consistent : IsConsistent d

below : (limit : ℤ) (n : ℕ) → leb_ℤ limit (pos n) ≡ false → leb_ℤ (pos (n + 1)) limit ≡ true
below (pos m) n h = ground arith
below (negsuc m) n h = ground arith

module _ {F : Type 0} (c : Controller F) (inv : IsConsistent c) (def : ProcessDefinition) where
  submit_done :
      leb_ℤ c.max_processes (pos (size c.processes)) ≡ false
      → validate (draft def c.current_tick) ≡ ok tt
      → has_key (trim_space def.id) c.processes ≡ false
      → ((submit_process def c).0 ≡ ok (queued def c.current_tick))
        × IsAdded c (queued def c.current_tick) (submit_process def c).1
  unfolding submit_process new_process transition emitted
  submit_done room good once =
      let q = queued def c.current_tick in
      let larger =
        size-insert q.id q c.processes (has_key-none (trim_space def.id) c.processes once) in
      let within : leb_ℤ (pos (size (insert q.id q c.processes))) c.max_processes ≡ true =
        rw larger (below c.max_processes (size c.processes) room) in
      let found = lookup-insert_self q.id q c.processes in
      let others = KeepsOthers-insert q.id q c.processes c.processes (λ j other. refl) in
      elim (Bool-cases (is_completed c.simulation_status)) [
        | inl over ↦
            rw (room, good, once, over)
              (
                refl,
                record {
                  found = found;
                  others = others;
                  larger = larger;
                  within = within;
                  limit = refl;
                  open_again = refl;
                },
              )
        | inr going ↦
            rw (room, good, once, going)
              (
                refl,
                record {
                  found = found;
                  others = others;
                  larger = larger;
                  within = within;
                  limit = refl;
                  open_again = going;
                },
              )
      ]

  -- SubmitProcess on a consistent controller refuses in this order a submission to a full
  -- controller, an invalid definition with the error of its validation, and a trimmed identifier
  -- that is taken; these leave the whole controller as it was. Otherwise the process of the
  -- definition is stored and returned as ready since the current tick, the others stay the same,
  -- there is one process more and no more than the limit, and the simulation is not completed. The
  -- controller is consistent.
  pub submit_process-IsSubmission :
      IsSubmission c def (submit_process def c).0 (submit_process def c).1
  submit_process-IsSubmission = record {
    full = λ h. unfold submit_process in rw h (refl, refl);
    invalid = λ e room bad. unfold submit_process new_process in rw (room, bad) (refl, refl);
    taken =
        λ room good twice. unfold submit_process new_process in rw (room, good, twice) (refl, refl);
    done = submit_done;
    consistent = submit_process-IsConsistent c inv def;
  }

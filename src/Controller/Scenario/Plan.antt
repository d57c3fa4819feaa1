-- ===== src/Controller/Scenario/Plan.antt =====
-- internal/cluster/scenario.go: the maps that prepareScenario builds.
use cs320_cluster_process_ma.Base.{
  ℤ, pos, ltb_ℤ, eqb_ℤ, String, List, [], true, ◌≡◌, refl, sym, ap, ◌∙◌, Dict, lookup, string_eq,
  int_eq, arith, ok, ok_inj, on_ok-ok, Float, length, keep, size,
}
use cs320_cluster_process_ma.Domain.Node.{Node}
use cs320_cluster_process_ma.Domain.Cluster.{new_cluster}
use cs320_cluster_process_ma.Domain.Scenario.{FailureDefinition, Scenario}
use cs320_cluster_process_ma.Domain.Scenario.Validation
use cs320_cluster_process_ma.Domain.Scenario.Validation.{max_of}
use cs320_cluster_process_ma.Scheduler.{Scheduler, new_scheduler}
use cs320_cluster_process_ma.Controller.State.{Controller}
use cs320_cluster_process_ma.Controller.Tick.Schedule.{or_empty}
use cs320_cluster_process_ma.Controller.Scenario.{
  Prepared, Intake, no_intake, prepare_nodes, prepare_processes, prepare_failures, prepare_state,
  prepare_scenario,
}
use cs320_cluster_process_ma.Controller.Scenario.Rounds.{
  AreReady, immediate, prepare_failures-planned, prepare_processes-pending,
  prepare_processes-AreReady, prepare_processes-size,
}

-- What prepareScenario makes of a scenario.
pub record IsPlanOf {F : Type 0} (s : Scenario) (prepared : Prepared F) : Type 0 where
  pub pending :
      (tick : ℤ)
      → ltb_ℤ (pos 0) tick ≡ true
      → or_empty (lookup tick prepared.pending)
        ≡ keep (λ d. eqb_ℤ d.submit_at_tick tick) s.processes
  pub failures :
      (tick : ℤ)
      → or_empty (lookup tick prepared.failures) ≡ keep (λ d. eqb_ℤ d.tick tick) s.failures
  pub ready : AreReady prepared.state.processes s.processes
  pub size : size prepared.state.processes ≡ length (immediate s.processes)

IsPlanOf-loops :
    {F : Type 0} (s : Scenario) (prepared : Prepared F) (nodes : Dict String Node) (intake : Intake)
    (failures : Dict ℤ (List FailureDefinition))
    → prepare_processes no_intake s.processes ≡ ok intake
    → prepare_failures nodes intake.ids [] s.failures ≡ ok failures
    → prepared.state.processes ≡ intake.processes
    → prepared.pending ≡ intake.pending
    → prepared.failures ≡ failures
    → IsPlanOf s prepared
unfolding lookup
IsPlanOf-loops s prepared nodes intake failures e g processes pending planned = record {
  pending = λ tick later.
      rw pending (prepare_processes-pending no_intake intake s.processes tick later e);
  failures =
      λ tick. rw planned (prepare_failures-planned nodes intake.ids [] s.failures failures tick g);
  ready = rw processes (prepare_processes-AreReady no_intake intake s.processes e);
  size =
      rw processes
        (prepare_processes-size no_intake intake s.processes (λ id h. refl) e ∙ omega arith);
}

prepare_state-IsPlanOf :
    {F : Type 0} ⦃f : Float F⦄ (s : Scenario) (selected : Scheduler) (prepared : Prepared F)
    → prepare_state s selected ≡ ok prepared
    → IsPlanOf s prepared
unfolding prepare_state new_cluster
prepare_state-IsPlanOf s selected prepared h =
    let (nodes, _, h1) = on_ok-ok (prepare_nodes [] s.nodes) _ prepared h in
    let (intake, e, h2) = on_ok-ok (prepare_processes no_intake s.processes) _ prepared h1 in
    let (failures, g, h3) =
      on_ok-ok (prepare_failures nodes intake.ids [] s.failures) _ prepared h2 in
    let same = sym (ok_inj _ prepared h3) in
    IsPlanOf-loops s prepared nodes intake failures e g (ap (λ q. q.state.processes) same)
      (ap (λ q. q.pending) same) (ap (λ q. q.failures) same)

-- Where prepareScenario succeeds, its maps are the scenario: under each positive tick wait exactly
-- the process definitions of that tick, in their order; under each tick the failures of that tick,
-- in their order; each other definition is a ready process under its trimmed identifier, and there
-- are no further processes.
pub prepare_scenario-IsPlanOf :
    {F : Type 0} ⦃f : Float F⦄ (s : Scenario) (c : Controller F) (prepared : Prepared F)
    → prepare_scenario s c ≡ ok prepared
    → IsPlanOf s prepared
unfolding prepare_scenario
prepare_scenario-IsPlanOf s c prepared h =
    let (_, _, h1) = on_ok-ok (Validation.validate s) _ prepared h in
    let (selected, _, h2) = on_ok-ok (new_scheduler s.scheduler) _ prepared h1 in
    prepare_state-IsPlanOf s selected prepared (ground (arith, h2))

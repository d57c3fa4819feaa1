-- ===== src/Controller/Outcome/Effects.antt =====
-- internal/cluster/lifecycle.go and recovery.go: what a process is left with by KillProcess and
-- FailProcess, and what SubmitProcess adds.
pub mod Kill
pub mod Submit
pub mod Fail
use cs320_cluster_process_ma.Base.{
  String, Dict, ◌≢◌, true, false, ◌≡◌, refl, sym, ap, ◌∙◌, inl, inr, some, lookup, insert,
  lookup-insert_ne, ok, string_eq, Bool-cases,
}
use cs320_cluster_process_ma.Domain.Process.{Process}
use cs320_cluster_process_ma.Controller.State.{Controller}
use cs320_cluster_process_ma.Controller.Processes.{is_running, release_if_running}
use cs320_cluster_process_ma.Controller.Invariant.Facts.{IsConsistent}
use cs320_cluster_process_ma.Controller.Consistency.Release.{release_locked-IsReleased, unhosted}

-- The entries under all keys but one are as before.
abbrev pub KeepsOthers : {V : Type 0} → String → Dict String V → Dict String V → Type 0
KeepsOthers k before after = (j : String) → k ≢ j → lookup j after ≡ lookup j before

pub KeepsOthers-insert :
    {V : Type 0} (k : String) (v : V) (before after : Dict String V)
    → KeepsOthers k before after
    → KeepsOthers k before (insert k v after)
KeepsOthers-insert k v before after h = λ j other. lookup-insert_ne k j v after other ∙ h j other

-- The outcome of leaving the node, if there is one.
pub record IsLeft {F : Type 0} (c : Controller F) (p : Process) (d : Controller F) : Type 0 where
  pub answers : release_if_running p c ≡ (ok (unhosted p), d)
  pub found : lookup p.id d.processes ≡ some (unhosted p)
  pub clock : d.current_tick ≡ c.current_tick
  pub others : KeepsOthers p.id c.processes d.processes

-- A process without a node is as it would be after leaving one.
pub unhosted-idle : (p : Process) → p.node_id ≡ "" → p ≡ unhosted p
unhosted-idle p at = ap (λ i. record p { node_id = i }) at

module _ {F : Type 0} (c : Controller F) (inv : IsConsistent c) (p : Process)
    (found : lookup p.id c.processes ≡ some p) where
  pub release_if_running-IsLeft : (d : Controller F) × IsLeft c p d
  release_if_running-IsLeft = elim (Bool-cases (is_running p.state)) [
    | inl run ↦
        let (d, r) = release_locked-IsReleased c p inv found run in
        (
          d,
          record {
            answers = rw run r.answers;
            found = r.found;
            clock = r.clock;
            others = r.others;
          },
        )
    | inr idle ↦
        let same = unhosted-idle p ((inv.processes p.id p found).unplaced idle) in
        (
          c,
          record {
            answers = rw idle (ap (λ q. (ok q, c)) same);
            found = found ∙ ap (λ q. some q) same;
            clock = refl;
            others = λ j other. refl;
          },
        )
  ]

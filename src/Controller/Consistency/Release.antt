-- ===== src/Controller/Consistency/Release.antt =====
-- internal/cluster/lifecycle.go: releaseLocked, and the invariant.
use cs320_cluster_process_ma.Base.{
  [], ◌∷◌, true, ◌≡◌, refl, sym, subst, some, lookup, insert, ok, contains-nil, lookup-insert_self,
  lookup-insert_ne, ◌≢◌, String, string_eq,
}
use cs320_cluster_process_ma.Domain.Types.{EventType}
use cs320_cluster_process_ma.Domain.Process.{Process}
use cs320_cluster_process_ma.Controller.State.{Controller, emitted, store_node, store_process}
use cs320_cluster_process_ma.Controller.Processes.{is_running, release_locked}
use cs320_cluster_process_ma.Controller.Invariant.Facts.{IsConsistent, IsConsistentBut, IsHosting}
use cs320_cluster_process_ma.Controller.Invariant.Resources.{freed, released, release_lem}

abbrev pub unhosted : Process → Process
unhosted p = record p { node_id = "" }

-- The outcome of a release: the process is loose, the clock stands, and no other process changes.
pub record IsReleased {F : Type 0} (c : Controller F) (p : Process) (d : Controller F)
    : Type 0 where
  pub answers : release_locked p c ≡ (ok (unhosted p), d)
  pub loose : IsConsistentBut (p.id ∷ []) d.nodes d.processes
  pub found : lookup p.id d.processes ≡ some (unhosted p)
  pub clock : d.current_tick ≡ c.current_tick
  pub others : (j : String) → p.id ≢ j → lookup j d.processes ≡ lookup j c.processes

module _ {F : Type 0} (c : Controller F) (p : Process) (inv : IsConsistent c)
    (found : lookup p.id c.processes ≡ some p) (run : is_running p.state ≡ true) where
  pub hosting : IsHosting c.nodes p.node_id p.id
  hosting = (inv.processes p.id p found).placed (contains-nil p.id) run

  pub release_locked-IsReleased : (d : Controller F) × IsReleased c p d
  unfolding release_locked emitted
  release_locked-IsReleased =
      let (n, e, h) = hosting in
      let r = release_lem c.nodes c.processes p.id p found inv n e h in
      let key = (inv.nodes p.node_id n e).key in
      let moved =
        released c.nodes c.processes p.id p found inv (unhosted p)
          (record { id = refl; cpu = refl; memory = refl }) run n e h run in
      (
        emitted EventType.resource_released "info" p.id p.node_id "resources released"
            (store_process (unhosted p) (store_node (freed n p) c)),
        record {
          answers = rw (e, r) refl;
          loose =
              subst
                (λ k.
                  IsConsistentBut (p.id ∷ []) (insert k (freed n p) c.nodes)
                    (insert p.id (unhosted p) c.processes))
                (sym key) moved;
          found = lookup-insert_self p.id (unhosted p) c.processes;
          clock = refl;
          others = λ j other. lookup-insert_ne p.id j (unhosted p) c.processes other;
        },
      )

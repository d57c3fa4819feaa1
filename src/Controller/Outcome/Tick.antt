-- ===== src/Controller/Outcome/Tick.antt =====
-- internal/cluster/lifecycle.go: the phases of a tick succeed on a consistent controller.
use cs320_cluster_process_ma.Base.{
  ℤ, pos, String, List, [], ◌∷◌, true, ◌≡◌, refl, sym, ◌∙◌, inl, inr, Bool-cases, lookup, string_eq,
  has_key, has_key_iff, ok, some, none, ignore, ltb_ℤ, sub_int, Action, ◌>>◌, arith, sort_by,
  before, lookup-insert, Dict, contains, eq_iff, insert, ignore_after, leb_ℤ, contains-sort_by,
  lookup-insert_self,
}
use cs320_cluster_process_ma.Domain.Types.{ProcessState, EventType}
use cs320_cluster_process_ma.Domain.Process.{Process, transition}
use cs320_cluster_process_ma.Domain.Node.{Node}
use cs320_cluster_process_ma.Controller.State.{Controller, emitted, store_process}
use cs320_cluster_process_ma.Controller.Processes.{is_running, release_locked}
use cs320_cluster_process_ma.Controller.Failures.{
  fail_node_locked, fail_late, detect_missed_heartbeats, late,
}
use cs320_cluster_process_ma.Controller.Tick.Execution.{
  complete, worked, execute, execute_running, running_ids,
}
use cs320_cluster_process_ma.Controller.Frame.{IsStable, fail_node_locked-Keeps}
use cs320_cluster_process_ma.Controller.Frame.Tick.{worked-Keeps}
use cs320_cluster_process_ma.Controller.Invariant.Facts.{IsConsistent}
use cs320_cluster_process_ma.Controller.Consistency.Release.{release_locked-IsReleased}
use cs320_cluster_process_ma.Controller.Consistency.Commands.{can_leave, found_itself}
use cs320_cluster_process_ma.Controller.Consistency.NodeFailure.{fail_node_locked-IsConsistent}
use cs320_cluster_process_ma.Controller.Consistency.Execution.{worked-IsConsistent, nowhere}
use cs320_cluster_process_ma.Controller.Invariant.Writes.{write}
use cs320_cluster_process_ma.Controller.Outcome.Defs.{IsAtomic, ignore-ok}
use cs320_cluster_process_ma.Controller.Outcome.Nodes.{fail_node_locked-IsAtomic}

-- A part of the tick is done: no error, no nil dereference.
abbrev pub Runs : {F : Type 0} → Action (Controller F) Unit → Controller F → Type 0
Runs m c = (m c).0 ≡ ok tt

-- The maps still have the keys.
abbrev pub HasNode : {F : Type 0} → String → Controller F → Type 0
HasNode k c = has_key k c.nodes ≡ true

abbrev pub HasProcess : {F : Type 0} → String → Controller F → Type 0
HasProcess k c = has_key k c.processes ≡ true

has_key-insert :
    {V : Type 0} (k j : String) (v : V) (m : Dict String V)
    → has_key j m ≡ true
    → has_key j (insert k v m) ≡ true
unfolding has_key
has_key-insert k j v m h = ground (arith, lookup-insert k j v m)

HasNode-IsStable : {F : Type 0} (k : String) → IsStable {F = F} (HasNode k)
unfolding emitted
HasNode-IsStable k = record {
  node = λ n c h. has_key-insert n.id k n c.nodes h;
  process = λ p c h. h;
  statistics = λ g c h. h;
  status = λ s reason c h. h;
  pending = λ m c h. h;
  failures = λ m c h. h;
  event = λ type severity process_id node_id message c h. h;
}

HasProcess-IsStable : {F : Type 0} (k : String) → IsStable {F = F} (HasProcess k)
unfolding emitted
HasProcess-IsStable k = record {
  node = λ n c h. h;
  process = λ p c h. has_key-insert p.id k p c.processes h;
  statistics = λ g c h. h;
  status = λ s reason c h. h;
  pending = λ m c h. h;
  failures = λ m c h. h;
  event = λ type severity process_id node_id message c h. h;
}

-- All of the keys.
abbrev pub HasAll :
    {F : Type 0} → (String → Controller F → Type 0) → List String → Controller F → Type 0
HasAll P [] c = Unit {0}
HasAll P (k ∷ ks) c = P k c × HasAll P ks c

HasAll-IsStable :
    {F : Type 0} (P : String → Controller F → Type 0)
    → ((k : String) → IsStable (P k))
    → (ks : List String) → IsStable (HasAll P ks)
HasAll-IsStable P keeps [] = record {
  node = λ n c h. tt;
  process = λ p c h. tt;
  statistics = λ g c h. tt;
  status = λ s reason c h. tt;
  pending = λ m c h. tt;
  failures = λ m c h. tt;
  event = λ type severity process_id node_id message c h. tt;
}
HasAll-IsStable P keeps (k ∷ ks) =
    let head = keeps k in
    let rest = HasAll-IsStable P keeps ks in
    record {
      node = λ n c h. (head.node n c h.0, rest.node n c h.1);
      process = λ p c h. (head.process p c h.0, rest.process p c h.1);
      statistics = λ g c h. (head.statistics g c h.0, rest.statistics g c h.1);
      status = λ s reason c h. (head.status s reason c h.0, rest.status s reason c h.1);
      pending = λ m c h. (head.pending m c h.0, rest.pending m c h.1);
      failures = λ m c h. (head.failures m c h.0, rest.failures m c h.1);
      event = λ type severity p n message c h.
          (head.event type severity p n message c h.0, rest.event type severity p n message c h.1);
    }

HasAll-of_contains :
    {F : Type 0} (P : String → Controller F → Type 0) (c : Controller F) (ks : List String)
    → ((k : String) → contains ks k ≡ true → P k c)
    → HasAll P ks c
unfolding contains
HasAll-of_contains P c [] h = tt
HasAll-of_contains P c (k ∷ ks) h =
    (h k (ground (arith, eq_iff k k)), HasAll-of_contains P c ks (λ j l. h j (ground arith)))

-- The rest runs where the first part has run.
then-Runs :
    {F : Type 0} (m n : Action (Controller F) Unit) (c : Controller F)
    → Runs m c
    → Runs n (m c).1
    → Runs (m >> n) c
then-Runs m n c first rest = rw first rest

fail_late-Runs :
    {F : Type 0} (ids : List String) (c : Controller F)
    → IsConsistent c
    → HasAll HasNode ids c
    → Runs (fail_late ids) c
unfolding fail_late
fail_late-Runs [] c inv h = refl
fail_late-Runs {F} (id ∷ ids) c inv h =
    let (n, e) = (has_key_iff id c.nodes).0 h.0 in
    let stable = HasAll-IsStable HasNode HasNode-IsStable ids in
    let message : String = "heartbeat timeout exceeded" in
    let d = emitted EventType.node_heartbeat_missed "error" "" id message c in
    let inv_d : IsConsistent d = unfold emitted in inv in
    let e_d : lookup id d.nodes ≡ some n = unfold emitted in e in
    rw e (
      then-Runs (ignore (fail_node_locked n message)) (fail_late ids) d
        (ignore-ok (fail_node_locked n message) d
          (fail_node_locked-IsAtomic d inv_d id n message e_d))
        (fail_late-Runs ids _
          (ignore_after IsConsistent (fail_node_locked n message) d
            (fail_node_locked-IsConsistent d inv_d id n message e_d))
          (ignore_after (HasAll HasNode ids) (fail_node_locked n message) d (
            fail_node_locked-Keeps (HasAll HasNode ids) stable n message d
              (stable.event _ _ _ _ _ c h.1)))))

late-has_key :
    (tick timeout : ℤ) (m : Dict String Node) (k : String)
    → contains (late tick timeout m) k ≡ true
    → has_key k m ≡ true
unfolding contains has_key lookup
late-has_key tick timeout [] k h = ground arith
late-has_key tick timeout ((j, n) ∷ m) k h = ground (arith, late-has_key tick timeout m k)

pub detect_missed_heartbeats-Runs :
    {F : Type 0} (c : Controller F) → IsConsistent c → Runs detect_missed_heartbeats c
unfolding detect_missed_heartbeats
detect_missed_heartbeats-Runs c inv =
    let ids = late c.current_tick c.heartbeat_timeout_ticks c.nodes in
    elim (Bool-cases (leb_ℤ c.heartbeat_timeout_ticks (pos 0))) [
      | inl off ↦ rw off refl
      | inr on ↦ rw on (
          fail_late-Runs (sort_by before ids) c inv (
            HasAll-of_contains HasNode c (sort_by before ids) λ k h.
              late-has_key c.current_tick c.heartbeat_timeout_ticks c.nodes k
                (sym (contains-sort_by before ids k) ∙ h)))
    ]

-- The end of a process, whose errors executeRunningLocked drops.
complete-IsAtomic :
    {F : Type 0} (c : Controller F) (p : Process)
    → IsConsistent c
    → lookup p.id c.processes ≡ some p
    → IsAtomic c (complete p c)
unfolding complete transition
complete-IsAtomic c p inv found = elim (Bool-cases (is_running p.state)) [
  | inr idle ↦
      let home = (inv.processes p.id p found).unplaced idle in
      let gone : lookup p.node_id c.nodes ≡ none = rw home (nowhere c inv) in
      unfold release_locked in rw gone refl
  | inl run ↦
      let (d, r) = release_locked-IsReleased c p inv found run in
      let can = can_leave p.state ProcessState.terminated run refl in rw (r.answers, can) tt
]

worked-Runs :
    {F : Type 0} (c : Controller F) (p : Process) (remaining : ℤ)
    → IsConsistent c
    → lookup p.id c.processes ≡ some p
    → Runs (worked (record p { remaining_ticks = remaining })) c
unfolding worked
worked-Runs c p remaining inv found =
    let q : Process = record p { remaining_ticks = remaining } in
    let d = store_process q c in
    let kept : IsConsistent d =
      write c.processes p.id p q found (record { id = refl; cpu = refl; memory = refl }) [] c.nodes
        refl refl inv in
    elim (Bool-cases (ltb_ℤ (pos 0) remaining)) [
      | inl more ↦ rw more refl
      | inr done ↦ rw done (
          ignore-ok (complete q) d
            (complete-IsAtomic d q kept (lookup-insert_self p.id q c.processes)))
    ]

execute-Runs :
    {F : Type 0} (ids : List String) (c : Controller F)
    → IsConsistent c
    → HasAll HasProcess ids c
    → Runs (execute ids) c
unfolding execute
execute-Runs [] c inv h = refl
execute-Runs {F} (id ∷ ids) c inv h =
    let (p, e) = (has_key_iff id c.processes).0 h.0 in
    let left = sub_int p.remaining_ticks (pos 1) in
    let q : Process = record p { remaining_ticks = left } in
    let found = found_itself c inv id p e in
    let stable = HasAll-IsStable HasProcess HasProcess-IsStable ids in
    rw e (
      then-Runs (worked q) (execute ids) c (worked-Runs c p left inv found) (
        execute-Runs ids (worked q c).1 (worked-IsConsistent c p left inv found)
          (worked-Keeps (HasAll HasProcess ids) stable q c h.1)))

running_ids-has_key :
    (m : Dict String Process) (k : String) → contains (running_ids m) k ≡ true → has_key k m ≡ true
unfolding contains has_key lookup
running_ids-has_key [] k h = ground arith
running_ids-has_key ((j, p) ∷ m) k h = ground (arith, running_ids-has_key m k)

pub execute_running-Runs : {F : Type 0} (c : Controller F) → IsConsistent c → Runs execute_running c
unfolding execute_running
execute_running-Runs c inv = execute-Runs (sort_by before (running_ids c.processes)) c inv (
    HasAll-of_contains HasProcess c (sort_by before (running_ids c.processes)) λ k h.
      running_ids-has_key c.processes k
        (sym (contains-sort_by before (running_ids c.processes) k) ∙ h))

-- ===== src/Domain/Node.antt =====
-- internal/domain/node.go.
use cs320_cluster_process_ma.Base.{
  and_return, ℤ, pos, String, List, [], ◌∷◌, ◌++◌, Bool, true, false, ◌&&◌, ◌||◌, Option, none,
  some, ltb_ℤ, leb_ℤ, add_int, sub_int, ◌==◌, string_eq, if◌then◌else◌, trim_space, contains,
  remove_first, Result, ok, err, invalid_input, insufficient_resources,
}
use cs320_cluster_process_ma.Domain.Types.{NodeStatus}
use cs320_cluster_process_ma.Domain.Process.{Process}

pub record Node : Type 0 where
  pub id : String
  pub name : String
  pub status : NodeStatus
  pub cpu_capacity : ℤ
  pub memory_capacity_mb : ℤ
  pub cpu_allocated : ℤ
  pub memory_allocated_mb : ℤ
  pub running_process_ids : List String
  pub last_heartbeat_tick : ℤ

pub record NodeDefinition : Type 0 where
  pub id : String
  pub name : String
  pub cpu_capacity : ℤ
  pub memory_capacity_mb : ℤ

pub record NodeSnapshot : Type 0 where
  pub id : String
  pub name : String
  pub status : NodeStatus
  pub cpu_capacity : ℤ
  pub memory_capacity_mb : ℤ
  pub cpu_allocated : ℤ
  pub memory_allocated_mb : ℤ

-- Node.Validate
unfoldable pub validate : Node → Result Unit
validate n =
    if trim_space n.id == ""
    then err invalid_input
    else if trim_space n.name == ""
    then err invalid_input
    else if leb_ℤ n.cpu_capacity (pos 0)
    then err invalid_input
    else if leb_ℤ n.memory_capacity_mb (pos 0)
    then err invalid_input
    else if ltb_ℤ n.cpu_allocated (pos 0) || ltb_ℤ n.cpu_capacity n.cpu_allocated
    then err invalid_input
    else if ltb_ℤ n.memory_allocated_mb (pos 0) || ltb_ℤ n.memory_capacity_mb n.memory_allocated_mb
    then err invalid_input
    else ok tt

-- The node that NewNode builds before it validates it.
abbrev pub draft : NodeDefinition → ℤ → Node
draft def tick = record {
  id = trim_space def.id;
  name = trim_space def.name;
  status = NodeStatus.online;
  cpu_capacity = def.cpu_capacity;
  memory_capacity_mb = def.memory_capacity_mb;
  cpu_allocated = pos 0;
  memory_allocated_mb = pos 0;
  running_process_ids = [];
  last_heartbeat_tick = tick;
}

unfoldable pub new_node : NodeDefinition → ℤ → Result Node
new_node def tick = let n = draft def tick in and_return (validate n) n

abbrev pub snapshot : Node → NodeSnapshot
snapshot n = record {
  id = n.id;
  name = n.name;
  status = n.status;
  cpu_capacity = n.cpu_capacity;
  memory_capacity_mb = n.memory_capacity_mb;
  cpu_allocated = n.cpu_allocated;
  memory_allocated_mb = n.memory_allocated_mb;
}

abbrev pub is_online : NodeStatus → Bool
is_online NodeStatus.online = true
is_online _ = false

unfoldable pub can_fit : NodeSnapshot → Process → Bool
can_fit n p =
    is_online n.status
    && leb_ℤ p.cpu_request (sub_int n.cpu_capacity n.cpu_allocated)
    && leb_ℤ p.memory_request_mb (sub_int n.memory_capacity_mb n.memory_allocated_mb)

-- Node.Allocate on a pointer that is not nil.
unfoldable pub allocate : Node → Process → Result Node
unfolding can_fit contains
allocate n p =
    if can_fit (snapshot n) p
    then (if contains n.running_process_ids p.id
        then err invalid_input
        else ok (record n {
          cpu_allocated = add_int n.cpu_allocated p.cpu_request;
          memory_allocated_mb = add_int n.memory_allocated_mb p.memory_request_mb;
          running_process_ids = n.running_process_ids ++ p.id ∷ [];
        }))
    else err insufficient_resources

-- Node.Allocate through a pointer that may be nil, as a missing key of the map gives one.
unfoldable pub allocate? : Option Node → Process → Result Node
unfolding allocate
allocate? none p = err insufficient_resources
allocate? (some n) p = allocate n p

-- Node.Release on a pointer that is not nil.
unfoldable pub release : Node → Process → Result Node
unfolding contains remove_first
release n p =
    if contains n.running_process_ids p.id
    then (if ltb_ℤ n.cpu_allocated p.cpu_request || ltb_ℤ n.memory_allocated_mb p.memory_request_mb
        then err invalid_input
        else ok (record n {
          cpu_allocated = sub_int n.cpu_allocated p.cpu_request;
          memory_allocated_mb = sub_int n.memory_allocated_mb p.memory_request_mb;
          running_process_ids = remove_first n.running_process_ids p.id;
        }))
    else err invalid_input

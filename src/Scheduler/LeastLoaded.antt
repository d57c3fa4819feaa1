-- ===== src/Scheduler/LeastLoaded.antt =====
-- internal/scheduler/least_loaded.go
use cs320_cluster_process_ma.Base.{
  String, List, [], ◌∷◌, Bool, ◌&&◌, ◌||◌, ◌==◌, string_eq, before, Float, if◌then◌else◌, Result,
  ok, err, no_schedulable_node,
}
use cs320_cluster_process_ma.Domain.Process.{Process}
use cs320_cluster_process_ma.Domain.Node.{NodeSnapshot, can_fit}

module _ (F : Type 0) ⦃f : Float F⦄ where
  open f use {of_int, half, infinity, add, mul, div, lt, eq}

  unfoldable pub load_score : NodeSnapshot → F
  load_score n =
      let cpu = div (of_int n.cpu_allocated) (of_int n.cpu_capacity) in
      let memory = div (of_int n.memory_allocated_mb) (of_int n.memory_capacity_mb) in
      add (mul half cpu) (mul half memory)

  -- The test of the loop, on a node that fits.
  unfoldable pub improves : String → F → NodeSnapshot → Bool
  unfolding load_score
  improves selected_id selected_score n =
      lt (load_score n) selected_score
      || (eq (load_score n) selected_score && (selected_id == "" || before n.id selected_id))

  -- The loop over the nodes, with selectedID and selectedScore.
  unfoldable pub select_from : String → F → Process → List NodeSnapshot → String
  unfolding can_fit improves
  select_from selected_id selected_score p [] = selected_id
  select_from selected_id selected_score p (n ∷ nodes) =
      let better = can_fit n p && improves selected_id selected_score n in
      select_from (if better then n.id else selected_id)
        (if better then load_score n else selected_score) p nodes

  unfoldable pub select_node : Process → List NodeSnapshot → Result String
  unfolding select_from
  select_node p nodes =
      let selected_id = select_from "" infinity p nodes in
      if selected_id == "" then err no_schedulable_node else ok selected_id

-- ===== src/Controller/Tick/Sampling.antt =====
-- internal/cluster/lifecycle.go: sampleUtilizationLocked, over an abstract float64.
use cs320_cluster_process_ma.Base.{
  ℤ, pos, String, List, [], ◌∷◌, ltb, ltb_ℤ, add_int, if◌then◌else◌, length, Dict, Float, map,
}
use cs320_cluster_process_ma.Domain.Node.{Node}
use cs320_cluster_process_ma.Domain.Cluster.{Statistics}
use cs320_cluster_process_ma.Controller.State.{Controller, set_statistics}

-- `total += value` over the nodes.
abbrev pub int_total : (Node → ℤ) → ℤ → Dict String Node → ℤ
int_total value total [] = total
int_total value total ((id, n) ∷ ns) = int_total value (add_int total (value n)) ns

module _ {F : Type 0} ⦃f : Float F⦄ where
  open f use {of_int, half, add, sub, mul, div, sqrt}

  abbrev loads : Dict String Node → List F
  loads [] = []
  loads ((id, n) ∷ ns) =
      add (div (mul half (of_int n.cpu_allocated)) (of_int n.cpu_capacity))
        (div (mul half (of_int n.memory_allocated_mb)) (of_int n.memory_capacity_mb))
      ∷ loads ns

  abbrev float_total : F → List F → F
  float_total sum [] = sum
  float_total sum (x ∷ xs) = float_total (add sum x) xs

  abbrev std_dev : List F → F
  std_dev xs =
      let count = of_int (pos (length xs)) in
      let mean = div (float_total (of_int (pos 0)) xs) count in
      let squares = map (λ x. mul (sub x mean) (sub x mean)) xs in
      sqrt (div (float_total (of_int (pos 0)) squares) count)

  -- `sum += float64(allocated) / float64(total)`, if the total is positive.
  abbrev add_share : F → (allocated total : ℤ) → F
  add_share sum allocated total =
      if ltb_ℤ (pos 0) total then add sum (div (of_int allocated) (of_int total)) else sum

  abbrev sampled : Dict String Node → Statistics F → Statistics F
  sampled nodes s = record s {
    cpu_utilization_sum =
        add_share s.cpu_utilization_sum (int_total (λ n. n.cpu_allocated) (pos 0) nodes)
          (int_total (λ n. n.cpu_capacity) (pos 0) nodes);
    memory_utilization_sum =
        add_share s.memory_utilization_sum (int_total (λ n. n.memory_allocated_mb) (pos 0) nodes)
          (int_total (λ n. n.memory_capacity_mb) (pos 0) nodes);
    load_balance_std_dev_sum =
        if ltb 0 (length (loads nodes))
        then add s.load_balance_std_dev_sum (std_dev (loads nodes))
        else s.load_balance_std_dev_sum;
    utilization_samples = add_int s.utilization_samples (pos 1);
  }

  unfoldable pub sample_utilization : Controller F → Controller F
  sample_utilization c = set_statistics (sampled c.nodes) c

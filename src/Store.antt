-- ===== src/Store.antt =====
-- internal/store: memory.go and snapshot.go, with Cluster.Clone of internal/domain/cluster.go. A
-- copy is the value itself; the mutex makes each method one step. Encoding/json is a parameter.
use cs320_cluster_process_ma.Base.{
  ℤ, String, [], ◌∷◌, Option, none, some, Dict, Float, Result, ok, err, panic, on_ok, invalid_input,
}
use cs320_cluster_process_ma.Domain.Process.{Process}
use cs320_cluster_process_ma.Domain.Node.{Node}
use cs320_cluster_process_ma.Domain.Cluster.{Cluster, new_cluster}

pub record Memory (F : Type 0) : Type 0 where
  pub cluster : Cluster F

module _ {F : Type 0} ⦃f : Float F⦄ where
  -- NewMemory
  unfoldable pub new_memory : String → ℤ → Memory F
  unfolding new_cluster
  new_memory scheduler seed = record { cluster = new_cluster scheduler seed }

  -- Reset
  unfoldable pub reset : String → ℤ → Memory F → Memory F
  unfolding new_cluster
  reset scheduler seed m = record { cluster = new_cluster scheduler seed }

module _ {F : Type 0} where
  -- Snapshot
  unfoldable pub snapshot : Memory F → Cluster F
  snapshot m = m.cluster

  -- Replace, whose cluster may be nil.
  unfoldable pub replace : Option (Cluster F) → Memory F → Result Unit × Memory F
  replace none m = (err invalid_input, m)
  replace (some c) m = (ok tt, record { cluster = c })

-- A cluster as the decoder fills it: a map that is missing is nil, and so is a value `null`.
pub record Decoded (F : Type 0) : Type 0 where
  pub rest : Cluster F
  pub nodes : Option (Dict String (Option Node))
  pub processes : Option (Dict String (Option Process))

-- The encoder with its indentation, which fails on a float that JSON has no text for, and the decoder with DisallowUnknownFields.
pub record Json (F J : Type 0) : Type 0 where
  pub encode : Cluster F → Option J
  pub decode : J → Option (Decoded F)

-- The loop of Clone over a map: Clone on a nil pointer panics.
abbrev pub clone_entries : {V : Type 0} → Dict String (Option V) → Result (Dict String V)
clone_entries [] = ok []
clone_entries ((id, none) ∷ entries) = panic
clone_entries ((id, some v) ∷ entries) =
    let copies = clone_entries entries in on_ok copies λ copied. ok ((id, v) ∷ copied)

-- `if cluster.Nodes == nil { cluster.Nodes = make(...) }`
abbrev made : {V : Type 0} → Option (Dict String V) → Dict String V
made none = []
made (some entries) = entries

-- The answer of WriteSnapshot: what is written, ErrInvalidInput, or an error of the encoder.
pub data Written (J : Type 0) : Type 0 where
  written : J → Written J
  rejected unencoded : Written J

-- The answer of ReadSnapshot: its cluster, an error of the decoder, or a panic.
pub data Read (F : Type 0) : Type 0 where
  restored : Cluster F → Read F
  undecoded crashed : Read F

abbrev of_encoded : {J : Type 0} → Option J → Written J
of_encoded none = unencoded
of_encoded (some j) = written j

module _ {F : Type 0} where
  -- Cluster.Clone
  unfoldable pub clone : Decoded F → Result (Cluster F)
  clone c = on_ok (clone_entries (made c.nodes)) λ nodes.
      on_ok (clone_entries (made c.processes))
        λ processes. ok (record c.rest { nodes = nodes; processes = processes })

  -- WriteSnapshot, to a writer that does not fail.
  unfoldable pub write_snapshot : {J : Type 0} → Json F J → Option (Cluster F) → Written J
  write_snapshot json none = rejected
  write_snapshot json (some c) = of_encoded (json.encode c)

  abbrev of_clone : Result (Cluster F) → Read F
  of_clone (ok c) = restored c
  of_clone (err e) = undecoded
  of_clone panic = crashed

  abbrev of_decoded : Option (Decoded F) → Read F
  of_decoded none = undecoded
  of_decoded (some c) = of_clone (clone c)

  -- ReadSnapshot
  unfoldable pub read_snapshot : {J : Type 0} → Json F J → J → Read F
  unfolding clone
  read_snapshot json reader = of_decoded (json.decode reader)

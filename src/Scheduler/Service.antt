-- ===== src/Scheduler/Service.antt =====
-- internal/scheduler/least_loaded.go: a process that fits somewhere is served.
use cs320_cluster_process_ma.Base.{
  ℕ, zero, suc, String, List, [], ◌∷◌, true, false, ◌&&◌, ◌==◌, string_eq, ◌≡◌, refl, ap, ◌∙◌, inl,
  inr, arith, Bool-cases, some, get_elem?, Float, ok,
}
use cs320_cluster_process_ma.Domain.Process.{Process}
use cs320_cluster_process_ma.Domain.Node.{NodeSnapshot, can_fit}
use cs320_cluster_process_ma.Scheduler.LeastLoaded
use cs320_cluster_process_ma.Scheduler.LeastLoaded.{select_from, improves, load_score}
use cs320_cluster_process_ma.Scheduler.Selection.{IsCandidate, least_loaded_sound}

module _ (F : Type 0) ⦃f : Float F⦄ where
  -- The nodes have identifiers, and their scores are below the infinity that the loop begins with.
  abbrev pub AreScored : List NodeSnapshot → Type 0
  AreScored [] = Unit {0}
  AreScored (n ∷ nodes) =
      ((n.id == "") ≡ false) × (f.lt (load_score F n) f.infinity ≡ true) × AreScored nodes

  select_from_named :
      (id : String) (score : F) (p : Process) (nodes : List NodeSnapshot)
      → AreScored nodes
      → (id == "") ≡ false
      → (select_from F id score p nodes == "") ≡ false
  unfolding select_from
  select_from_named id score p [] h named = named
  select_from_named id score p (n ∷ nodes) (some_id, finite, h) named =
      elim (Bool-cases (can_fit n p && improves F id score n)) [
        | inl e ↦ rw (select_from, e) (select_from_named n.id (load_score F n) p nodes h some_id)
        | inr e ↦ rw (select_from, e) (select_from_named id score p nodes h named)
      ]

  select_from_finds :
      (p : Process) (nodes : List NodeSnapshot) (i : ℕ) (n : NodeSnapshot)
      → AreScored nodes
      → get_elem? nodes i ≡ some n
      → can_fit n p ≡ true
      → (select_from F "" f.infinity p nodes == "") ≡ false
  unfolding select_from improves
  select_from_finds p [] i n h e fits = cc
  select_from_finds p (m ∷ nodes) zero n (some_id, finite, h) e fits =
      let same : m ≡ n = ground arith in
      let fit : can_fit m p ≡ true = ap (λ q. can_fit q p) same ∙ fits in
      let better : (can_fit m p && improves F "" f.infinity m) ≡ true = rw (fit, finite) refl in
      rw (select_from, better) (select_from_named m.id (load_score F m) p nodes h some_id)
  select_from_finds p (m ∷ nodes) (suc j) n (some_id, finite, h) e fits =
      elim (Bool-cases (can_fit m p && improves F "" f.infinity m)) [
        | inl better ↦
            rw (select_from, better) (select_from_named m.id (load_score F m) p nodes h some_id)
        | inr worse ↦ rw (select_from, worse) (select_from_finds p nodes j n h e fits)
      ]

  -- LeastLoaded.SelectNode answers the identifier of a node that fits the process, for a list in
  -- which some node fits it. The nodes have identifiers that are not empty, and their scores are
  -- below infinity.
  pub least_loaded_serves :
      (p : Process) (nodes : List NodeSnapshot) (i : ℕ) (n : NodeSnapshot)
      → AreScored nodes
      → get_elem? nodes i ≡ some n
      → can_fit n p ≡ true
      → (id : String) × (LeastLoaded.select_node F p nodes ≡ ok id) × IsCandidate F nodes p id
  unfolding LeastLoaded.select_node
  least_loaded_serves p nodes i n h e fits =
      let found = select_from_finds p nodes i n h e fits in
      elim (least_loaded_sound F p nodes) [
        | inl good ↦ good
        | inr bad ↦ let no : ⊥ = ground (arith, bad, found) in elim no [ ]
      ]

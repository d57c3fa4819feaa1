-- ===== src/Controller/Outcome/Defs.antt =====
-- The outcome of a method that either does its work or leaves the controller alone.
use cs320_cluster_process_ma.Base.{
  ◌≡◌, refl, IsCalm, Action, Result, ok, err, panic, after_ignored, ignore,
}
use cs320_cluster_process_ma.Controller.State.{Controller}

-- Success, or an error and the controller as it was; there is no nil dereference.
abbrev pub IsAtomic : {F A : Type 0} → Controller F → Result A × Controller F → Type 0
IsAtomic c (ok _, d) = Unit {0}
IsAtomic c (err _, d) = d ≡ c
IsAtomic c (panic, d) = ⊥

ignored-ok :
    {F A : Type 0} (c : Controller F) (r : Result A) (d : Controller F)
    → IsAtomic c (r, d)
    → (after_ignored r d).0 ≡ ok tt
ignored-ok c (ok a) d h = refl
ignored-ok c (err e) d h = refl
ignored-ok c panic d h = elim h [ ]

-- A call whose error is dropped goes on.
pub ignore-ok :
    {F A : Type 0} (m : Action (Controller F) A) (c : Controller F)
    → IsAtomic c (m c)
    → (ignore m c).0 ≡ ok tt
ignore-ok m c h = let (r, d) = m c in ignored-ok c r d h

of_atomic-IsCalm :
    {F A : Type 0} (c : Controller F) (r : Result A) (d : Controller F)
    → IsAtomic c (r, d)
    → IsCalm r
of_atomic-IsCalm c (ok a) d h = tt
of_atomic-IsCalm c (err e) d h = tt
of_atomic-IsCalm c panic d h = h

pub IsAtomic→IsCalm :
    {F A : Type 0} (m : Action (Controller F) A) (c : Controller F)
    → IsAtomic c (m c)
    → IsCalm (m c).0
IsAtomic→IsCalm m c h = let (r, d) = m c in of_atomic-IsCalm c r d h

-- ===== src/Base/Actions.antt =====
-- Methods on a shared state that may fail. The state outlives an error, as a mutation before a
-- `return err` does in Go; a nil dereference panics.
use mathlib.Core.Path.{◌≡◌, refl}
use mathlib.Core.Logic.{◌⊎◌, inl, inr}
use mathlib.Core.Bool.{Bool, true, false}
use mathlib.Core.Option.{Option, none, some}

-- The sentinels of internal/domain/errors.go, and the unwrapped errors of validateInvariantsLocked.
pub data Error : Type 0 where
  node_not_found process_not_found duplicate_node duplicate_process : Error
  insufficient_resources invalid_state_transition no_schedulable_node : Error
  simulation_not_running max_restarts_exceeded invalid_input : Error
  invariant_broken : Error

pub data Result (A : Type 0) : Type 0 where
  ok : A → Result A
  err : Error → Result A
  panic : Result A

-- `if err != nil { return nil, err }` before a value that is at hand.
abbrev pub and_return : {A : Type 0} → Result Unit → A → Result A
and_return (ok _) a = ok a
and_return (err e) a = err e
and_return panic a = panic

-- `value, err := call()` and `if err != nil { return err }` in a function without a state.
abbrev pub on_ok : {A B : Type 0} → Result A → (A → Result B) → Result B
on_ok (ok a) f = f a
on_ok (err e) f = err e
on_ok panic f = panic

abbrev pub Action : Type 0 → Type 0 → Type 0
Action S A = S → Result A × S

module _ {S : Type 0} where
  abbrev pub get : Action S S
  get s = (ok s, s)

  abbrev pub put : S → Action S Unit
  put t s = (ok tt, t)

  abbrev pub modify : (S → S) → Action S Unit
  modify f s = (ok tt, f s)

  -- `if test { return err }`
  abbrev pub fail_if : Bool → Error → Action S Unit
  fail_if true e s = (err e, s)
  fail_if false e s = (ok tt, s)

module _ {S A : Type 0} where
  abbrev pub pure : A → Action S A
  pure a s = (ok a, s)

  abbrev pub throw : Error → Action S A
  throw e s = (err e, s)

  -- A pure function that may fail.
  abbrev pub lift : Result A → Action S A
  lift r s = (r, s)

  -- A map lookup with `if !exists { return err }`.
  abbrev pub or_fail : Option A → Error → Action S A
  or_fail none e s = (err e, s)
  or_fail (some a) e s = (ok a, s)

  -- A pointer that the code dereferences without a test.
  abbrev pub or_panic : Option A → Action S A
  or_panic none s = (panic, s)
  or_panic (some a) s = (ok a, s)

module _ {S A : Type 0} where
  -- `_ = call`: an error is dropped, a panic is not.
  abbrev pub after_ignored : Result A → S → Result Unit × S
  after_ignored (ok _) s = (ok tt, s)
  after_ignored (err _) s = (ok tt, s)
  after_ignored panic s = (panic, s)

  abbrev pub ignore : Action S A → Action S Unit
  ignore m s = let (result, after) = m s in after_ignored result after

module _ {S A B : Type 0} where
  abbrev pub and_then : Result A → (A → Action S B) → Action S B
  and_then (ok a) f s = f a s
  and_then (err e) f s = (err e, s)
  and_then panic f s = (panic, s)

  infixl 5 ◌>>=◌ ◌>>◌
  abbrev pub ◌>>=◌ : Action S A → (A → Action S B) → Action S B
  m >>= f = λ s. let (result, after) = m s in and_then result f after

  abbrev pub ◌>>◌ : Action S A → Action S B → Action S B
  m >> n = m >>= λ _. n

-- An action keeps a property of the state, whether it succeeds or not.
abbrev pub Keeps : {S A : Type 0} → (S → Type 0) → Action S A → Type 0
Keeps {S} P m = (s : S) → P s → P (m s).1

module _ {S A B : Type 0} (P : S → Type 0) where
  and_then-keeps :
      (r : Result A) (f : A → Action S B) (s : S)
      → P s
      → ((a : A) → Keeps P (f a))
      → P (and_then r f s).1
  and_then-keeps (ok a) f s h k = k a s h
  and_then-keeps (err e) f s h k = h
  and_then-keeps panic f s h k = h

  -- The rest of a method keeps what its first call left.
  pub bind_after :
      (m : Action S A) (f : A → Action S B) (s : S)
      → P (m s).1
      → ((a : A) → Keeps P (f a))
      → P ((m >>= f) s).1
  bind_after m f s h k = let (r, t) = m s in and_then-keeps r f t h k

  and_then_at :
      (r : Result A) (f : A → Action S B) (s : S)
      → P s
      → ((a : A) → P (f a s).1)
      → P (and_then r f s).1
  and_then_at (ok a) f s h k = k a
  and_then_at (err e) f s h k = h
  and_then_at panic f s h k = h

  -- The same, where the rest is only known to work on that state.
  pub bind_at :
      (m : Action S A) (f : A → Action S B) (s : S)
      → P (m s).1
      → ((a : A) → P (f a (m s).1).1)
      → P ((m >>= f) s).1
  bind_at m f s h k = let (r, t) = m s in and_then_at r f t h k

  pub bind-Keeps :
      (call : Action S A) (rest : A → Action S B)
      → Keeps P call
      → ((answer : A) → Keeps P (rest answer))
      → Keeps P (call >>= rest)
  bind-Keeps call rest first then_on s p = bind_after call rest s (first s p) then_on

module _ {S A : Type 0} (P : S → Type 0) where
  after_ignored-keeps : (r : Result A) (s : S) → P s → P (after_ignored r s).1
  after_ignored-keeps (ok a) s h = h
  after_ignored-keeps (err e) s h = h
  after_ignored-keeps panic s h = h

  pub ignore_after : (m : Action S A) (s : S) → P (m s).1 → P (ignore m s).1
  ignore_after m s h = let (r, t) = m s in after_ignored-keeps r t h

-- An answer that is no panic.
abbrev pub IsCalm : {A : Type 0} → Result A → Type 0
IsCalm (ok _) = Unit {0}
IsCalm (err _) = Unit {0}
IsCalm panic = ⊥

module _ {S A B : Type 0} where
  and_then-IsCalm :
      (r : Result A) (f : A → Action S B) (s : S)
      → IsCalm r
      → ((a : A) → IsCalm (f a s).0)
      → IsCalm (and_then r f s).0
  and_then-IsCalm (ok a) f s h k = k a
  and_then-IsCalm (err e) f s h k = tt
  and_then-IsCalm panic f s h k = h

  -- A method is calm if its first call is, and the rest on the state that it leaves.
  pub bind-IsCalm :
      (m : Action S A) (f : A → Action S B) (s : S)
      → IsCalm (m s).0
      → ((a : A) → IsCalm (f a (m s).1).0)
      → IsCalm ((m >>= f) s).0
  bind-IsCalm m f s h k = let (r, t) = m s in and_then-IsCalm r f t h k

-- What an answer yields has a property; it is no panic.
abbrev pub Yields : {A : Type 0} → (A → Type 0) → Result A → Type 0
Yields P (ok a) = P a
Yields P (err _) = Unit {0}
Yields P panic = ⊥

pub on_ok-Yields :
    {A B : Type 0} (P : A → Type 0) (Q : B → Type 0) (r : Result A) (f : A → Result B)
    → Yields P r
    → ((a : A) → P a → Yields Q (f a))
    → Yields Q (on_ok r f)
on_ok-Yields P Q (ok a) f h k = k a h
on_ok-Yields P Q (err e) f h k = tt
on_ok-Yields P Q panic f h k = h

-- A sequence succeeds where both parts do.
pub on_ok-ok :
    {A B : Type 0} (r : Result A) (f : A → Result B) (b : B)
    → on_ok r f ≡ ok b
    → (a : A) × (r ≡ ok a) × (f a ≡ ok b)
on_ok-ok (ok a) f b h = (a, refl, h)
on_ok-ok (err e) f b h = cc
on_ok-ok panic f b h = cc

pub Result-cases :
    {A : Type 0} (r : Result A) → ((a : A) × (r ≡ ok a)) ⊎ ((e : Error) × (r ≡ err e)) ⊎ (r ≡ panic)
Result-cases (ok a) = inl (a, refl)
Result-cases (err e) = inr (inl (e, refl))
Result-cases panic = inr (inr refl)

pub and_return-ok : {A : Type 0} (r : Result Unit) (a b : A) → and_return r a ≡ ok b → b ≡ a
and_return-ok (ok _) a b h = cc
and_return-ok (err e) a b h = cc
and_return-ok panic a b h = cc

pub ok_inj : {A : Type 0} (a b : A) → Result.ok a ≡ ok b → a ≡ b
ok_inj a b h = cc

-- ===== src/Commands/Answers.antt =====
-- What the commands' functions return: a value and no error, an error of the command's own type,
-- or a panic of what they call.
use cs320_cluster_process_ma.Base.{
  Option, none, some, Error, Result, ok, err, panic, Bool, true, false, ◌≡◌, refl, Yields,
}

pub data Answer (E A : Type 0) : Type 0 where
  done : A → Answer E A
  failed : E → Answer E A
  crashed : Answer E A

infixl 5 ◌>>=◌
abbrev pub ◌>>=◌ : {E A B : Type 0} → Answer E A → (A → Answer E B) → Answer E B
done a >>= f = f a
failed e >>= f = failed e
crashed >>= f = crashed

-- `value, err := call()` and `if err != nil { return err }`.
abbrev pub or_fail : {E A : Type 0} → Option A → E → Answer E A
or_fail none e = failed e
or_fail (some a) e = done a

-- The same for a call of the packages under internal.
abbrev pub or_error : {E A : Type 0} → Result A → (Error → E) → Answer E A
or_error (ok a) wrap = done a
or_error (err e) wrap = failed (wrap e)
or_error panic wrap = crashed

-- `if test { return err }`
abbrev pub fail_if : {E : Type 0} → Bool → E → Answer E Unit
fail_if true e = failed e
fail_if false e = done tt

infixl 5 ◌>>◌
abbrev pub ◌>>◌ : {E B : Type 0} → Answer E Unit → Answer E B → Answer E B
m >> n = m >>= λ _. n

module _ {E A B : Type 0} where
  -- A chain that succeeds, taken apart.
  pub bind-done :
      (m : Answer E A) (f : A → Answer E B) (b : B)
      → m >>= f ≡ done b
      → (a : A) × (m ≡ done a) × (f a ≡ done b)
  bind-done (done a) f b h = (a, refl, h)
  bind-done (failed e) f b h = cc
  bind-done crashed f b h = cc

module _ {E A : Type 0} where
  pub or_fail-done : (o : Option A) (e : E) (a : A) → or_fail o e ≡ done a → o ≡ some a
  or_fail-done none e a h = cc
  or_fail-done (some b) e a h = cc

  pub or_error-done :
      (r : Result A) (wrap : Error → E) (a : A) → or_error r wrap ≡ done a → r ≡ ok a
  or_error-done (ok b) wrap a h = cc
  or_error-done (err e) wrap a h = cc
  or_error-done panic wrap a h = cc

  pub done_inj : (a b : A) → Path (Answer E A) (done a) (done b) → a ≡ b
  done_inj a b h = cc

-- What a command yields has a property; it never panics.
abbrev pub Holds : {E A : Type 0} → (A → Type 0) → Answer E A → Type 0
Holds P (done a) = P a
Holds P (failed e) = Unit {0}
Holds P crashed = ⊥

module _ {E A : Type 0} where
  pub bind-Holds :
      {B : Type 0} (P : A → Type 0) (Q : B → Type 0) (m : Answer E A) (f : A → Answer E B)
      → Holds P m
      → ((a : A) → P a → Holds Q (f a))
      → Holds Q (m >>= f)
  bind-Holds P Q (done a) f h k = k a h
  bind-Holds P Q (failed e) f h k = tt
  bind-Holds P Q crashed f h k = h

  -- What is yielded is the answer.
  pub Holds-done : (P : A → Type 0) (m : Answer E A) → Holds P m → Holds (λ a. (m ≡ done a) × P a) m
  Holds-done P (done a) h = (refl, h)
  Holds-done P (failed e) h = tt
  Holds-done P crashed h = h

  pub or_fail-Holds :
      (P : A → Type 0) (o : Option A) (e : E) → ((a : A) → o ≡ some a → P a) → Holds P (or_fail o e)
  or_fail-Holds P none e h = tt
  or_fail-Holds P (some a) e h = h a refl

  pub or_error-Holds :
      (P : A → Type 0) (r : Result A) (wrap : Error → E) → Yields P r → Holds P (or_error r wrap)
  or_error-Holds P (ok a) wrap h = h
  or_error-Holds P (err e) wrap h = tt
  or_error-Holds P panic wrap h = h

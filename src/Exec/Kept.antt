-- ===== src/Exec/Kept.antt =====
-- What an action keeps, one rule for each way to build an action. A step from a state to the next is
-- made whether the action returns or raises; what it returns is known only where it does.
use slowfs.Prelude.{if◌then◌else◌, ◌≡◌, refl, ap, subst, Bool, true, false, Option, none, some}
use slowfs.Exec.{
  Exn, Result, ok, raised, Exec, or_raise, resume, assert_that, raise_if, ok-injective,
}

-- The steps that the states of a type may make.
pub record Steps (S : Type 0) : Type 1 where
  pub IsStep : S → S → Type 0
  pub step_trans : {s t u : S} → IsStep s t → IsStep t u → IsStep s u

abbrev pub Step : {S : Type 0} ⦃steps : Steps S⦄ → S → S → Type 0
Step ⦃steps⦄ = steps.IsStep

module _ {S : Type 0} ⦃steps : Steps S⦄ where
  -- From the state `s`, a run of an action makes a step, and what it returns is as `Q` says.
  pub record Kept {A : Type 0} (s : S) (run : Result A × S) (Q : A → S → Type 0) : Type 0 where
    pub step : Step s run.1
    pub returned : (a : A) → run.0 ≡ ok a → Q a run.1

  module _ {A : Type 0} {s : S} where
    pub Kept-pure : {Q : A → S → Type 0} {a : A} → Step s s → Q a s → Kept s (ok a, s) Q
    Kept-pure {Q} step q = record {
      step = step;
      returned = λ b e. subst (λ x. Q x s) (ok-injective e) q;
    }

    pub Kept-raise : {Q : A → S → Type 0} {e : Exn} → Step s s → Kept s (raised e, s) Q
    Kept-raise step = record { step = step; returned = λ a h. cc }

    pub Kept-lift : (r : Result A) → Step s s → Kept s (r, s) (λ a t. r ≡ ok a)
    Kept-lift r step = record { step = step; returned = λ a h. h }

    pub Kept-or_raise :
        (o : Option A) (e : Exn) → Step s s → Kept s (or_raise o e s) (λ a t. o ≡ some a)
    Kept-or_raise none e step = record { step = step; returned = λ a h. cc }
    Kept-or_raise (some x) e step = record {
      step = step;
      returned = λ a h. ap some (ok-injective h);
    }

    pub Kept-if :
        {Q : A → S → Type 0} (b : Bool) (m n : Exec S A)
        → (b ≡ true → Kept s (m s) Q)
        → (b ≡ false → Kept s (n s) Q)
        → Kept s ((if b then m else n) s) Q
    Kept-if true m n km kn = km refl
    Kept-if false m n km kn = kn refl

    -- A weaker account of the result.
    pub Kept-weaken :
        {Q R : A → S → Type 0} {run : Result A × S}
        → Kept s run Q
        → ((a : A) (t : S) → Step s t → Q a t → R a t)
        → Kept s run R
    Kept-weaken {run} km next = record {
      step = km.step;
      returned = λ a e. next a run.1 km.step (km.returned a e);
    }

    pub Kept-any :
        {Q : A → S → Type 0} {run : Result A × S} → Kept s run Q → Kept s run (λ _ _. Unit)
    Kept-any km = record { step = km.step; returned = λ a e. tt }

  module _ {s : S} where
    pub Kept-assert : (b : Bool) → Step s s → Kept s (assert_that b s) (λ _ t. b ≡ true)
    Kept-assert true step = record { step = step; returned = λ a e. refl }
    Kept-assert false step = record { step = step; returned = λ a e. cc }

    pub Kept-raise_if : (b : Bool) (e : Exn) → Step s s → Kept s (raise_if b e s) (λ _ t. b ≡ false)
    Kept-raise_if true e step = record { step = step; returned = λ a h. cc }
    Kept-raise_if false e step = record { step = step; returned = λ a h. refl }

  -- The rest of a block, from what the first action returned.
  Kept-resume :
      {A B : Type 0} (s t : S) (r : Result A) (f : A → Exec S B) (Q : B → S → Type 0)
      → Step s t
      → ((a : A) → r ≡ ok a → Kept t (f a t) Q)
      → Kept s (resume r f t) Q
  Kept-resume s t (ok a) f Q step next =
      let k = next a refl in record { step = steps.step_trans step k.step; returned = k.returned }
  Kept-resume s t (raised e) f Q step next = record { step = step; returned = λ b h. cc }

  pub Kept-bind :
      {A B : Type 0} {s : S} {P : A → S → Type 0} {Q : B → S → Type 0} {run : Result A × S}
      {f : A → Exec S B}
      → Kept s run P
      → ((a : A) (t : S) → Step s t → P a t → Kept t (f a t) Q)
      → Kept s (resume run.0 f run.1) Q
  Kept-bind {s} {Q} {run} {f} km next =
      Kept-resume s run.1 run.0 f Q km.step (λ a e. next a run.1 km.step (km.returned a e))

  -- The rest of a run, from a state on the way.
  pub Kept-step :
      {A : Type 0} {s t : S} {Q : A → S → Type 0} {run : Result A × S}
      → Step s t
      → Kept t run Q
      → Kept s run Q
  Kept-step st km = record { step = steps.step_trans st km.step; returned = km.returned }

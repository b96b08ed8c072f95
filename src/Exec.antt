-- ===== src/Exec.antt =====
-- Python's exceptions and mutable objects: an action runs on a state and returns or raises. What
-- was written before a raise stays written, so the state comes back beside the exception too.
pub mod Kept
use slowfs.Prelude.{if◌then◌else◌, ◌≡◌, refl, ap, ◌⊎◌, inl, inr, Bool, Option, none, some}

-- The exceptions that the program raises or lets through.
pub data Exn : Type 0 where
  value_error index_error key_error assertion_error not_implemented struct_error os_error : Exn

pub data Result {ℓ} (A : Type ℓ) : Type ℓ where
  ok : A → Result A
  raised : Exn → Result A

abbrev pub Exec {ℓ} : Type ℓ → Type ℓ → Type ℓ
Exec S A = S → Result A × S

module _ {ℓ} {S A : Type ℓ} where
  abbrev pub pure : A → Exec S A
  pure a s = (ok a, s)

  abbrev pub raise : Exn → Exec S A
  raise e s = (raised e, s)

  abbrev pub lift : Result A → Exec S A
  lift r s = (r, s)

  abbrev pub gets : (S → A) → Exec S A
  gets f s = (ok (f s), s)

  -- `none` is the exception of a failed look-up.
  abbrev pub or_raise : Option A → Exn → Exec S A
  or_raise none e s = (raised e, s)
  or_raise (some a) e s = (ok a, s)

  abbrev pub resume {κ} : {B : Type κ} → Result A → (A → S → Result B × S) → S → Result B × S
  resume (ok a) f s = f a s
  resume (raised e) f s = (raised e, s)

infixl 5 ◌>>=◌ ◌>>◌
abbrev pub ◌>>=◌ {ℓ} : {S A B : Type ℓ} → Exec S A → (A → Exec S B) → Exec S B
◌>>=◌ m f s = let (r, t) = m s in resume r f t

abbrev pub ◌>>◌ {ℓ} : {S A B : Type ℓ} → Exec S A → Exec S B → Exec S B
◌>>◌ m k s = let (r, t) = m s in resume r (λ _. k) t

abbrev pub modify : {S : Type 0} → (S → S) → Exec S (Unit {0})
modify f s = (ok tt, f s)

-- `assert c` and `if c: raise e`.
abbrev pub assert_that : {S : Type 0} → Bool → Exec S (Unit {0})
assert_that c s = (if c then ok tt else raised assertion_error, s)

abbrev pub raise_if : {S : Type 0} → Bool → Exn → Exec S (Unit {0})
raise_if c e s = (if c then raised e else ok tt, s)

pub Result-cases {ℓ} :
    {A : Type ℓ} (r : Result A) → ((a : A) × (r ≡ ok a)) ⊎ ((e : Exn) × (r ≡ raised e))
Result-cases (ok a) = inl (a, refl)
Result-cases (raised e) = inr (e, refl)

pub ok-injective {ℓ} : {A : Type ℓ} {a b : A} → ok a ≡ ok b → a ≡ b
ok-injective {a} e = ap (λ r. elim r [ ok x ↦ x | raised x ↦ a ]) e

-- What follows matters only by its runs.
pub resume_cong :
    {S A B : Type 0} (r : Result A) (f g : A → Exec S B) (s : S)
    → ((a : A) → f a s ≡ g a s)
    → resume r f s ≡ resume r g s
resume_cong (ok a) f g s same = same a
resume_cong (raised e) f g s same = refl

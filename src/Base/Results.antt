-- ===== src/Base/Results.antt =====
-- How the simulator stops in the middle of an operation, and the monad of operations that may.
use mathlib.Core.Path.{◌≡◌, refl, sym, ap, subst}
use mathlib.Core.Logic.{◌⊎◌, inl, inr}

-- `bad_index` is a failed assert of RegFile, `bad_address` one of Memory, `out_of_bounds` an access
-- past the end of a vector (undefined in C++), `illegal` a call of Utils::illegal,
-- `unknown_opcode` the last case of Machine::execute, and `panic` the macro PANIC.
pub data Fault : Type 0 where
  bad_index bad_address out_of_bounds illegal unknown_opcode panic : Fault

pub data Result {ℓ} (A : Type ℓ) : Type ℓ where
  ok : A → Result A
  stop : Fault → Result A

-- The rest of an operation runs on the value of its first part; a fault ends it.
infixl 5 ◌>>=◌
abbrev pub ◌>>=◌ {ℓ ℓ'} : {A : Type ℓ} {B : Type ℓ'} → Result A → (A → Result B) → Result B
stop fault >>= rest = stop fault
ok x >>= rest = rest x

pub Result-cases {ℓ} :
    {A : Type ℓ} (r : Result A) → ((a : A) × (r ≡ ok a)) ⊎ ((e : Fault) × (r ≡ stop e))
Result-cases (ok a) = inl (a, refl)
Result-cases (stop e) = inr (e, refl)

-- An outcome that meets `P`, or is a kernel panic for which there is a cause.
pub data PanicsOnly {ℓ} {A : Type ℓ} (Cause : Type 0) (P : A → Type 0) (r : Result A) : Type ℓ where
  returns : (a : A) → r ≡ ok a → P a → PanicsOnly Cause P r
  panics : Cause → r ≡ stop panic → PanicsOnly Cause P r

pub PanicsOnly->>= {ℓ ℓ'} :
    {A : Type ℓ} {B : Type ℓ'} (Cause : Type 0) (P : A → Type 0) (Q : B → Type 0) (m : Result A)
    (f : A → Result B)
    → PanicsOnly Cause P m
    → ((a : A) → P a → PanicsOnly Cause Q (f a))
    → PanicsOnly Cause Q (m >>= f)
PanicsOnly->>= Cause P Q m f (returns a e h) k =
    subst (λ z. PanicsOnly Cause Q (z >>= f)) (sym e) (k a h)
PanicsOnly->>= Cause P Q m f (panics c e) k = panics c (ap (λ z. z >>= f) e)

pub PanicsOnly-map {ℓ} :
    {A : Type ℓ} (Cause : Type 0) (P Q : A → Type 0) (r : Result A)
    → PanicsOnly Cause P r
    → ((a : A) → P a → Q a)
    → PanicsOnly Cause Q r
PanicsOnly-map Cause P Q r (returns a e h) f = returns a e (f a h)
PanicsOnly-map Cause P Q r (panics cause e) f = panics cause e

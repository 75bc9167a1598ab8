-- ===== src/Prelude/Outcomes.antt =====
-- What a call comes to: a value, an exception with its text, or undefined behaviour.
use Prim.Native.String.{String}
use mathlib.Core.Bool.{Bool, true, false}
use mathlib.Core.Option.{Option, none, some}
use mathlib.Core.Path.{◌≡◌, refl}

pub data Outcome {ℓ} (A : Type ℓ) : Type ℓ where
  ok : A → Outcome A
  threw : String → Outcome A
  fault : Outcome A

infixl 5 ◌>>=◌ ◌>>◌
abbrev pub ◌>>=◌ {ℓ κ} : {A : Type ℓ} {B : Type κ} → Outcome A → (A → Outcome B) → Outcome B
ok a >>= f = f a
threw e >>= f = threw e
fault >>= f = fault

abbrev pub ◌>>◌ {ℓ} : {B : Type ℓ} → Outcome (Unit {0}) → Outcome B → Outcome B
m >> k = m >>= λ _. k

-- `if (failed) throw std::invalid_argument{text};`
abbrev pub throw_if : Bool → String → Outcome (Unit {0})
throw_if true text = threw text
throw_if false text = ok tt

-- A part of the model whose `none` is undefined behaviour.
abbrev pub defined {ℓ} : {A : Type ℓ} → Option A → Outcome A
defined none = fault
defined (some a) = ok a

-- A part of the model whose `none` is an exception.
abbrev pub or_throw {ℓ} : {A : Type ℓ} → Option A → String → Outcome A
or_throw none text = threw text
or_throw (some a) text = ok a

-- Values have P, exceptions are allowed, and nothing is undefined.
abbrev pub Yields : {A : Type 0} → (A → Type 0) → Outcome A → Type 0
Yields P (ok a) = P a
Yields P (threw text) = Unit
Yields P fault = ⊥

pub Yields-bind :
    {A B : Type 0} (P : A → Type 0) (Q : B → Type 0) (o : Outcome A) (f : A → Outcome B)
    → Yields P o
    → ((a : A) → P a → Yields Q (f a))
    → Yields Q (o >>= f)
Yields-bind P Q (ok a) f h k = k a h
Yields-bind P Q (threw text) f h k = tt
Yields-bind P Q fault f h k = absurd h

pub throw_if-Yields :
    {B : Type 0} (Q : B → Type 0) (b : Bool) (text : String) (k : Outcome B)
    → (b ≡ false → Yields Q k)
    → Yields Q (throw_if b text >> k)
throw_if-Yields Q true text k h = tt
throw_if-Yields Q false text k h = h refl

-- An answer of other code, whose exception has a text that is not known.
abbrev pub outside_text : String
outside_text = "an exception of other code"

abbrev pub outside : {A : Type 0} → Option A → Outcome A
outside o = or_throw o outside_text

pub outside-Yields :
    {A B : Type 0} (Q : B → Type 0) (o : Option A) (f : A → Outcome B)
    → ((a : A) → o ≡ some a → Yields Q (f a))
    → Yields Q (outside o >>= f)
outside-Yields Q none f h = tt
outside-Yields Q (some a) f h = h a refl

pub Yields-map :
    {A : Type 0} (P Q : A → Type 0) (o : Outcome A)
    → Yields P o
    → ((a : A) → P a → Q a)
    → Yields Q o
Yields-map P Q (ok a) h k = k a h
Yields-map P Q (threw text) h k = tt
Yields-map P Q fault h k = h

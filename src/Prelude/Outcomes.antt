-- ===== src/Prelude/Outcomes.antt =====
-- What a call comes to: a value, or a stop of the processor. A failed `assert` stops it in the endless
-- loop of __aeabi_assert, and setBreakpoint in a breakpoint (source/hardware/armv7m/hardware.cpp);
-- nothing of the program runs after either.
use mathlib.Core.Path.{◌≡◌, refl}
use mathlib.Core.Logic.{◌⊎◌, inl, inr}
use mathlib.Core.Bool.{Bool, true, false}

pub data Outcome {ℓ} (A : Type ℓ) : Type ℓ where
  done : A → Outcome A
  halted : Outcome A

infixl 5 ◌>>=◌ ◌>>◌
abbrev pub ◌>>=◌ {ℓ κ} : {A : Type ℓ} {B : Type κ} → Outcome A → (A → Outcome B) → Outcome B
done a >>= f = f a
halted >>= f = halted

abbrev pub ◌>>◌ {ℓ} : {B : Type ℓ} → Outcome (Unit {0}) → Outcome B → Outcome B
m >> k = m >>= λ _. k

abbrev pub assert : Bool → Outcome (Unit {0})
assert true = done tt
assert false = halted

-- Inversion of a successful bind, for proofs where the parts stay shut.
pub >>=-eq-done {ℓ κ} :
    {A : Type ℓ} {B : Type κ} (m : Outcome A) (f : A → Outcome B) {b : B}
    → (m >>= f) ≡ done b
    → (a : A) × (m ≡ done a) × (f a ≡ done b)
>>=-eq-done (done a) f h = (a, refl, h)
>>=-eq-done halted f h = cc

pub Outcome-cases {ℓ} : {A : Type ℓ} (m : Outcome A) → (m ≡ halted) ⊎ ((a : A) × (m ≡ done a))
Outcome-cases (done a) = inr (a, refl)
Outcome-cases halted = inl refl

pub bind_assoc :
    {A B C : Type 0} (o : Outcome A) (f : A → Outcome B) (g : B → Outcome C)
    → ((o >>= f) >>= g) ≡ (o >>= λ a. f a >>= g)
bind_assoc (done a) f g = refl
bind_assoc halted f g = refl

-- ===== src/Base/Outcomes.antt =====
-- How a run of kernel code can end: with a value, in `panic` (klib/panic.c halts the machine), in an
-- access through NULL or outside an object, or, for a loop modelled on fuel, out of fuel.

pub data Outcome {ℓ} (A : Type ℓ) : Type ℓ where
  done : A → Outcome A
  panic : Outcome A
  fault : Outcome A
  out_of_fuel : Outcome A

infixl 5 ◌>>=◌ ◌>>◌
abbrev pub ◌>>=◌ {ℓ κ} : {A : Type ℓ} {B : Type κ} → Outcome A → (A → Outcome B) → Outcome B
done a >>= f = f a
panic >>= f = panic
fault >>= f = fault
out_of_fuel >>= f = out_of_fuel

abbrev pub ◌>>◌ {ℓ} : {B : Type ℓ} → Outcome (Unit {0}) → Outcome B → Outcome B
m >> k = m >>= λ _. k

-- The run ends with a value of which `P` holds.
abbrev pub Ends {ℓ} : {A : Type ℓ} → (A → Type 0) → Outcome A → Type 0
Ends P (done a) = P a
Ends P panic = ⊥
Ends P fault = ⊥
Ends P out_of_fuel = ⊥

-- A run goes on from where its first part ends.
pub Ends-bind {ℓ κ} :
    {A : Type ℓ} {B : Type κ} (Mid : A → Type 0) (End : B → Type 0) (first : Outcome A)
    (next : A → Outcome B)
    → Ends Mid first
    → ((a : A) → Mid a → Ends End (next a))
    → Ends End (first >>= next)
Ends-bind Mid End (done a) next h k = k a h
Ends-bind Mid End panic next h k = absurd h
Ends-bind Mid End fault next h k = absurd h
Ends-bind Mid End out_of_fuel next h k = absurd h

pub Ends-map {ℓ} :
    {A : Type ℓ} (P Q : A → Type 0) (m : Outcome A) → ((a : A) → P a → Q a) → Ends P m → Ends Q m
Ends-map P Q (done a) f h = f a h
Ends-map P Q panic f h = h
Ends-map P Q fault f h = h
Ends-map P Q out_of_fuel f h = h

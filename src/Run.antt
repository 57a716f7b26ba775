-- ===== src/Run.antt =====
-- Runs of C code that may end in undefined behaviour, or out of the fuel that the model gives a
-- loop. `none` of a fuelled loop is turned into a fault.
use iftop_dotqoo.Prelude.{Option, none, refl, some, ◌≡◌}

pub data Fault : Type 0 where
  double_free use_after_free null_dereference buffer_overflow out_of_bounds integer_overflow
        uninitialised_read out_of_fuel :
      Fault

pub data Run {ℓ} (A : Type ℓ) : Type ℓ where
  ok : A → Run A
  fault : Fault → Run A

infixl 5 ◌>>=◌
abbrev pub ◌>>=◌ {ℓ κ} : {A : Type ℓ} {B : Type κ} → Run A → (A → Run B) → Run B
ok a >>= f = f a
fault e >>= f = fault e

abbrev pub or_fault {ℓ} : {A : Type ℓ} → Option A → Fault → Run A
or_fault none e = fault e
or_fault (some a) e = ok a

-- The run ends without a fault, in a value that satisfies `P`.
abbrev pub Returns {ℓ κ} : {A : Type ℓ} → (A → Type κ) → Run A → Type (ℓ ⊔ κ)
Returns {A} P r = (a : A) × (r ≡ ok a) × P a

-- A chain of two runs that ends has come through a state between them.
pub came_through {ℓ κ} :
    {State : Type ℓ} {Final : Type κ} (first : Run State) (later : State → Run Final) {last : Final}
    → (first >>= later) ≡ ok last
    → (between : State) × (first ≡ ok between) × (later between ≡ ok last)
came_through (fault reason) later runs = cc
came_through (ok between) later runs = (between, refl, runs)

-- ===== src/Base/Runs.antt =====
-- Runs of code that may fault (a failed assertion, a read through a dangling pointer) and of loops
-- on fuel.
use mathlib.Core.Path.{◌≡◌, refl}

pub data Run {ℓ} (A : Type ℓ) : Type ℓ where
  done : A → Run A
  fault : Run A
  out_of_fuel : Run A

abbrev pub and_then {ℓ κ} : {A : Type ℓ} {B : Type κ} → Run A → (A → Run B) → Run B
and_then (done a) k = k a
and_then fault k = fault
and_then out_of_fuel k = out_of_fuel

pub and_then_assoc {ℓ κ μ} :
    {A : Type ℓ} {B : Type κ} {C : Type μ} (m : Run A) (f : A → Run B) (g : B → Run C)
    → and_then (and_then m f) g ≡ and_then m (λ a. and_then (f a) g)
and_then_assoc (done a) f g = refl
and_then_assoc fault f g = refl
and_then_assoc out_of_fuel f g = refl

-- A sequence that is done was done in both parts.
pub and_then-done {ℓ κ} :
    {A : Type ℓ} {B : Type κ} (m : Run A) (k : A → Run B) (b : B)
    → and_then m k ≡ done b
    → (a : A) × (m ≡ done a) × (k a ≡ done b)
and_then-done (done a) k b e = (a, refl, e)
and_then-done fault k b e = cc (e)
and_then-done out_of_fuel k b e = cc (e)

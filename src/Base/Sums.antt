-- ===== src/Base/Sums.antt =====
-- Sums of a function over the numbers below a bound.
use Prim.Native.Nat.{ℕ, zero, suc, ◌+◌, ◌<◌, ◌≤◌}
use mathlib.Core.Path.{◌≡◌, refl, ap}
use mathlib.Core.Logic.{◌≢◌, inl, inr}
use native.Mathlib.Omega.{arith}
use usc_homeworks.Base.Tests.{◌==◌, ==_iff, Bool-cases}

unfoldable pub total : ℕ → (ℕ → ℕ) → ℕ
total zero f = 0
total (suc n) f = f n + total n f

pub total_same : (n : ℕ) (f g : ℕ → ℕ) → ((m : ℕ) → m < n → f m ≡ g m) → total n f ≡ total n g
unfolding total
total_same zero f g h = refl
total_same (suc n) f g h =
    omega (arith, h n (omega arith), total_same n f g (λ m l. h m (omega arith)))

-- Two functions that differ at one place.
pub total_change :
    (n d : ℕ) (f g : ℕ → ℕ)
    → d < n
    → ((m : ℕ) → m ≢ d → f m ≡ g m)
    → total n g + f d ≡ total n f + g d
unfolding total
total_change zero d f g h k = absurd (omega arith)
total_change (suc n) d f g h k = elim (Bool-cases (n == d)) [
  | inl same ↦
      let here : n ≡ d = (==_iff n d).0 same in
      let rest : total n f ≡ total n g =
        total_same n f g (λ m l. k m (λ e. absurd (omega arith))) in
      let fs : f n ≡ f d = ap f here in
      let gs : g n ≡ g d = ap g here in omega (arith, rest, fs, gs)
  | inr other ↦
      let differ : n ≢ d = ground arith in
      omega (arith, k n differ, total_change n d f g (ground arith) k)
]

pub total_member : (n d : ℕ) (f : ℕ → ℕ) → d < n → f d ≤ total n f
unfolding total
total_member zero d f h = absurd (omega arith)
total_member (suc n) d f h = elim (Bool-cases (n == d)) [
  | inl same ↦ let here : n ≡ d = (==_iff n d).0 same in rw (← here) (omega arith)
  | inr other ↦ omega (arith, total_member n d f (ground arith))
]

pub total-zero : (n : ℕ) → total n (λ j. 0) ≡ 0
unfolding total
total-zero zero = refl
total-zero (suc n) = omega (arith, total-zero n)

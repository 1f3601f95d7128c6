-- ===== src/Common/Powers.antt =====
-- Powers of a sum of exponents.
use Prim.Native.Nat.{ℕ, zero, suc, ◌+◌, ◌-◌, ◌*◌, ◌^◌, ◌≤◌}
use mathlib.Core.Path.{◌≡◌, ap}
use native.Mathlib.Nat.{pow-zero, pow-suc}
use native.Mathlib.Omega.{arith}

pub pow_add : (b m n : ℕ) → b ^ (m + n) ≡ b ^ m * b ^ n
pow_add b m zero =
    let e : m + 0 ≡ m = omega arith in
    omega (arith, ap (λ k. b ^ k) e, ap (λ (t : ℕ). b ^ m * t) (pow-zero b), pow-zero b)
pow_add b m (suc n) =
    let e : m + suc n ≡ suc (m + n) = omega arith in
    omega (
      arith,
      ap (λ k. b ^ k) e,
      pow-suc b (m + n),
      ap (λ (t : ℕ). b ^ m * t) (pow-suc b n),
      ap (λ (t : ℕ). t * b) (pow_add b m n),
    )

pub pow_split : (b m n : ℕ) → n ≤ m → b ^ (m - n) * b ^ n ≡ b ^ m
pow_split b m n h =
    let e : m - n + n ≡ m = omega arith in omega (arith, pow_add b (m - n) n, ap (λ k. b ^ k) e)

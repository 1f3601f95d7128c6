-- ===== src/Common/Xor.antt =====
-- Exclusive or at variables: one digit at a time, its group laws, and disjoint fields.
use Prim.Native.Nat.{
  ℕ, zero, suc, ◌+◌, ◌*◌, ◌/◌, ◌%◌, ◌^◌, ◌≤◌, ◌<◌, bit_xor, differ, bit_xor-bitwise,
}
use mathlib.Core.Path.{◌≡◌, refl, ap, ◌∙◌, sym}
use mathlib.Core.Logic.{◌⊎◌}
use native.Mathlib.Nat.{pow-suc}
use native.Mathlib.Omega.{arith}
use candid_core.Common.Bits.{digits_step}

pub bit_xor_step : (a b : ℕ) → bit_xor a b ≡ bit_xor (a / 2) (b / 2) * 2 + differ (a % 2) (b % 2)
bit_xor_step zero b = omega (arith, bit_xor-bitwise 0 b, bit_xor-bitwise 0 (b / 2))
bit_xor_step (suc a) b = omega (
  arith,
  bit_xor-bitwise (suc a) b,
  bit_xor-bitwise (suc a / 2) (b / 2),
  digits_step (λ b. b) differ a b,
)

digit-cases : (a : ℕ) → (a % 2 ≡ 0) ⊎ (a % 2 ≡ 1)
digit-cases a = omega arith

abbrev IsDigit : ℕ → Type 0
IsDigit x = x < 2

differ-lt : (x y : ℕ) → x < 2 → y < 2 → differ x y < 2
differ-lt zero y p q = q
differ-lt (suc zero) zero p q = omega arith
differ-lt (suc zero) (suc zero) p q = omega arith
differ-lt (suc zero) (suc (suc y)) p q = absurd (omega arith)
differ-lt (suc (suc x)) y p q = absurd (omega arith)

differ_assoc : (x y z : ℕ) → x < 2 → y < 2 → z < 2 → differ (differ x y) z ≡ differ x (differ y z)
differ_assoc zero y z p q r = refl
differ_assoc (suc zero) zero z p q r = refl
differ_assoc (suc zero) (suc zero) zero p q r = refl
differ_assoc (suc zero) (suc zero) (suc zero) p q r = refl
differ_assoc (suc zero) (suc zero) (suc (suc z)) p q r = absurd (omega arith)
differ_assoc (suc zero) (suc (suc y)) z p q r = absurd (omega arith)
differ_assoc (suc (suc x)) y z p q r = absurd (omega arith)

pub differ-zero : (x : ℕ) → differ x 0 ≡ x
differ-zero zero = refl
differ-zero (suc x) = refl

pub half-bit_xor : (a b : ℕ) → bit_xor a b / 2 ≡ bit_xor (a / 2) (b / 2)
half-bit_xor a b =
    omega (arith, bit_xor_step a b, differ-lt (a % 2) (b % 2) (omega arith) (omega arith))

pub parity-bit_xor : (a b : ℕ) → bit_xor a b % 2 ≡ differ (a % 2) (b % 2)
parity-bit_xor a b =
    omega (arith, bit_xor_step a b, differ-lt (a % 2) (b % 2) (omega arith) (omega arith))

pub zero-bit_xor : (b : ℕ) → bit_xor 0 b ≡ b
zero-bit_xor b = bit_xor-bitwise 0 b

bit_xor-zero_fuel : (n a : ℕ) → a ≤ n → bit_xor a 0 ≡ a
bit_xor-zero_fuel n zero h = refl
bit_xor-zero_fuel zero (suc a) h = elim h [ ]
bit_xor-zero_fuel (suc n) (suc a) h = omega (
  arith,
  bit_xor_step (suc a) 0,
  differ-zero (suc a % 2),
  bit_xor-zero_fuel n (suc a / 2) (omega arith),
)

pub bit_xor-zero : (a : ℕ) → bit_xor a 0 ≡ a
bit_xor-zero a = bit_xor-zero_fuel a a (omega arith)

-- Two numbers with the same half and the same parity are equal.
eq_of_half : (a b : ℕ) → a / 2 ≡ b / 2 → a % 2 ≡ b % 2 → a ≡ b
eq_of_half a b h p = omega arith

bit_xor_assoc_fuel : (n a b c : ℕ) → a ≤ n → bit_xor (bit_xor a b) c ≡ bit_xor a (bit_xor b c)
bit_xor_assoc_fuel n zero b c h =
    ap (λ t. bit_xor t c) (zero-bit_xor b) ∙ sym (zero-bit_xor (bit_xor b c))
bit_xor_assoc_fuel zero (suc a) b c h = elim h [ ]
bit_xor_assoc_fuel (suc n) (suc a) b c h =
    eq_of_half _ _
      (half-bit_xor (bit_xor (suc a) b) c
        ∙ ap (λ t. bit_xor t (c / 2)) (half-bit_xor (suc a) b)
        ∙ bit_xor_assoc_fuel n (suc a / 2) (b / 2) (c / 2) (omega arith)
        ∙ sym (
            half-bit_xor (suc a) (bit_xor b c)
            ∙ ap (λ t. bit_xor (suc a / 2) t) (half-bit_xor b c)))
      (parity-bit_xor (bit_xor (suc a) b) c
        ∙ ap (λ t. differ t (c % 2)) (parity-bit_xor (suc a) b)
        ∙ differ_assoc (suc a % 2) (b % 2) (c % 2) (omega arith) (omega arith) (omega arith)
        ∙ sym (
            parity-bit_xor (suc a) (bit_xor b c)
            ∙ ap (λ t. differ (suc a % 2) t) (parity-bit_xor b c)))

pub bit_xor_assoc : (a b c : ℕ) → bit_xor (bit_xor a b) c ≡ bit_xor a (bit_xor b c)
bit_xor_assoc a b c = bit_xor_assoc_fuel a a b c (omega arith)

-- Disjoint fields: exclusive or is their sum.
pub bit_xor_fields : (k r q : ℕ) → r < 2 ^ k → bit_xor r (q * 2 ^ k) ≡ r + q * 2 ^ k
bit_xor_fields zero r q h =
    let e : r ≡ 0 = omega arith in
    omega (arith, ap (λ t. bit_xor t (q * 1)) e, zero-bit_xor (q * 1))
bit_xor_fields (suc k) r q h =
    let p : q * 2 ^ suc k ≡ 2 * (q * 2 ^ k) = omega (arith, ap (λ (t : ℕ). q * t) (pow-suc 2 k)) in
    let e : q * 2 ^ suc k / 2 ≡ q * 2 ^ k = omega (arith, p) in
    let z : q * 2 ^ suc k % 2 ≡ 0 = omega (arith, p) in
    omega (
      arith,
      bit_xor_step r (q * 2 ^ suc k),
      ap (λ t. bit_xor (r / 2) t) e,
      ap (λ t. differ (r % 2) t) z,
      differ-zero (r % 2),
      bit_xor_fields k (r / 2) q (omega (arith, pow-suc 2 k)),
      p,
    )

-- ===== src/Common/Bits.antt =====
-- The bit operations of the source at variables: one digit at a time, and for the two idioms that
-- the codecs use, `(q << k) | r` of disjoint fields and `x & ((1 << k) - 1)`.
use Prim.Native.Nat.{
  ℕ, zero, suc, ◌+◌, ◌-◌, ◌*◌, ◌/◌, ◌%◌, ◌^◌, ◌≤◌, ◌<◌, min, max, bit_and, bit_or, digits,
  bit_and-bitwise, bit_or-bitwise,
}
use mathlib.Core.Path.{◌≡◌, refl, ap, ◌∙◌}
use native.Mathlib.Nat.{pow-suc, one-le-pow}
use native.Mathlib.Omega.{arith}
use native.Mathlib.Decide.{dec_lt}

-- x << k and x >>> k, where no bit is lost to the width.
abbrev pub shl : ℕ → ℕ → ℕ
shl x k = x * 2 ^ k

abbrev pub shr : ℕ → ℕ → ℕ
shr x k = x / 2 ^ k

-- The library's recursion counts its rounds; a round more than the number needs changes nothing.
module _ (base : ℕ → ℕ) (digit : ℕ → ℕ → ℕ) where
  one_more :
      (rounds x y : ℕ)
      → x ≤ rounds
      → digits base digit (suc rounds) x y ≡ digits base digit rounds x y
  one_more zero zero y h = refl
  one_more zero (suc x) y h = elim h [ ]
  one_more (suc rounds) zero y h = refl
  one_more (suc rounds) (suc x) y h =
      ap (λ (t : ℕ). t * 2 + digit (suc x % 2) (y % 2))
        (one_more rounds (suc x / 2) (y / 2) (omega arith))

  spare : (rounds x y : ℕ) → x ≤ rounds → digits base digit rounds x y ≡ digits base digit x x y
  spare zero x y h = let e : x ≡ zero = omega arith in rw e
  spare (suc rounds) x y h = elim (dec_lt rounds x) [
    | yes more ↦ let e : suc rounds ≡ x = omega arith in rw e
    | no less ↦ let h' : x ≤ rounds = omega arith in one_more rounds x y h' ∙ spare rounds x y h'
  ]

  pub digits_step :
      (x y : ℕ)
      → digits base digit (suc x) (suc x) y
        ≡ digits base digit (suc x / 2) (suc x / 2) (y / 2) * 2 + digit (suc x % 2) (y % 2)
  digits_step x y =
      ap (λ (t : ℕ). t * 2 + digit (suc x % 2) (y % 2)) (spare x (suc x / 2) (y / 2) (omega arith))

pub bit_and_step : (a b : ℕ) → bit_and a b ≡ bit_and (a / 2) (b / 2) * 2 + min (a % 2) (b % 2)
bit_and_step zero b = omega (arith, bit_and-bitwise 0 b, bit_and-bitwise 0 (b / 2))
bit_and_step (suc a) b = omega (
  arith,
  bit_and-bitwise (suc a) b,
  bit_and-bitwise (suc a / 2) (b / 2),
  digits_step (λ b. zero) min a b,
)

pub bit_or_step : (a b : ℕ) → bit_or a b ≡ bit_or (a / 2) (b / 2) * 2 + max (a % 2) (b % 2)
bit_or_step zero b = omega (arith, bit_or-bitwise 0 b, bit_or-bitwise 0 (b / 2))
bit_or_step (suc a) b = omega (
  arith,
  bit_or-bitwise (suc a) b,
  bit_or-bitwise (suc a / 2) (b / 2),
  digits_step (λ b. b) max a b,
)

bit_or-zero : (n a : ℕ) → a ≤ n → bit_or a 0 ≡ a
bit_or-zero n zero h = refl
bit_or-zero zero (suc a) h = elim h [ ]
bit_or-zero (suc n) (suc a) h =
    omega (arith, bit_or_step (suc a) 0, bit_or-zero n (suc a / 2) (omega arith))

bit_and-zero : (n a : ℕ) → a ≤ n → bit_and a 0 ≡ 0
bit_and-zero n zero h = refl
bit_and-zero zero (suc a) h = elim h [ ]
bit_and-zero (suc n) (suc a) h =
    omega (arith, bit_and_step (suc a) 0, bit_and-zero n (suc a / 2) (omega arith))

double_pow : (q k : ℕ) → q * 2 ^ suc k ≡ 2 * (q * 2 ^ k)
double_pow q k = omega (arith, ap (λ (t : ℕ). q * t) (pow-suc 2 k))

-- `(q << k) | r` is a sum when `r` has at most `k` bits.
pub bit_or_fields : (k q r : ℕ) → r < 2 ^ k → bit_or (q * 2 ^ k) r ≡ q * 2 ^ k + r
bit_or_fields zero q r h =
    let e : r ≡ 0 = omega arith in
    omega (arith, bit_or-zero (q * 1) (q * 1) (omega arith), ap (λ (t : ℕ). bit_or (q * 1) t) e)
bit_or_fields (suc k) q r h = omega (
  arith,
  bit_or_step (q * 2 ^ suc k) r,
  double_pow q k,
  pow-suc 2 k,
  ap (λ (t : ℕ). bit_or t (r / 2)) (half q k),
  bit_or_fields k q (r / 2) (omega (arith, pow-suc 2 k)),
)
  where
    half : (q k : ℕ) → q * 2 ^ suc k / 2 ≡ q * 2 ^ k
    half q k = omega (arith, double_pow q k)

bit_and_low : (k q r : ℕ) → r < 2 ^ k → bit_and (q * 2 ^ k + r) (2 ^ k - 1) ≡ r
bit_and_low zero q r h =
    let e : r ≡ 0 = omega arith in
    omega (arith, bit_and-zero (q * 1 + r) (q * 1 + r) (omega arith), e)
bit_and_low (suc k) q r h = omega (
  arith,
  bit_and_step (q * 2 ^ suc k + r) (2 ^ suc k - 1),
  double_pow q k,
  pow-suc 2 k,
  one-le-pow k 2,
  ap (λ (t : ℕ). bit_and t ((2 ^ suc k - 1) / 2)) (upper k q r),
  ap (λ (t : ℕ). bit_and (q * 2 ^ k + r / 2) t) (lower k),
  bit_and_low k q (r / 2) (omega (arith, pow-suc 2 k)),
)
  where
    upper : (k q r : ℕ) → (q * 2 ^ suc k + r) / 2 ≡ q * 2 ^ k + r / 2
    upper k q r = omega (arith, double_pow q k)

    lower : (k : ℕ) → (2 ^ suc k - 1) / 2 ≡ 2 ^ k - 1
    lower k = omega (arith, pow-suc 2 k)

-- `x & ((1 << k) - 1)` keeps the low `k` bits.
pub bit_and_mask : (k a : ℕ) → bit_and a (2 ^ k - 1) ≡ a % 2 ^ k
bit_and_mask k a = ground (arith, one-le-pow k 2, bit_and_low k (a / 2 ^ k) (a % 2 ^ k))

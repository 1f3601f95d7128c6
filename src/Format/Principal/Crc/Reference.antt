-- ===== src/Format/Principal/Crc/Reference.antt =====
-- The table-driven CRC-32 of principal.mjs against the bit-by-bit definition: exclusive or with the
-- byte, then eight shifts, each with the reversed polynomial where a one falls out.
use Prim.Native.Nat.{bit_and, bit_xor, differ}
use native.Mathlib.Nat.{pow-suc, mul_comm, div-div-eq-div-mul}
use candid_core.Common.{
  ℕ, zero, suc, ◌*◌, ◌/◌, ◌%◌, ◌^◌, ◌<◌, Bool, true, false, List, [], ◌∷◌, ◌==◌, if◌then◌else◌, ◌≡◌,
  refl, sym, ap, ap₂, ◌∙◌, arith, All,
}
use candid_core.Common.Bits.{bit_and_mask}
use candid_core.Common.Xor.{
  half-bit_xor, parity-bit_xor, bit_xor-zero, bit_xor_assoc, bit_xor_fields, differ-zero,
}
use candid_core.Format.Util.{IsByte}
use candid_core.Format.Principal.Crc.{shift_round, rounds, crc_table, crc_step, crc_loop, crc32}

-- The register after one byte, and after a message.
pub bitwise_step : ℕ → ℕ → ℕ
bitwise_step c b = rounds 8 (bit_xor c b)

pub bitwise_loop : List ℕ → ℕ → ℕ
bitwise_loop [] c = c
bitwise_loop (b ∷ bytes) c = bitwise_loop bytes (bitwise_step c b)

pub bitwise_crc32 : List ℕ → ℕ
bitwise_crc32 bytes = bit_xor (bitwise_loop bytes 0xffffffff) 0xffffffff

-- A round acts on the lowest bit alone: what stands above it is only shifted.
shift_round-bit_xor : (x y : ℕ) → shift_round (bit_xor x (y * 2)) ≡ bit_xor (shift_round x) y
unfolding shift_round
shift_round-bit_xor x y =
    let low : bit_and (bit_xor x (y * 2)) 1 ≡ bit_and x 1 =
      bit_and_mask 1 (bit_xor x (y * 2))
      ∙ parity-bit_xor x (y * 2)
      ∙ ap (λ t. differ (x % 2) t) (omega arith)
      ∙ differ-zero (x % 2)
      ∙ sym (bit_and_mask 1 x) in
    let high : bit_xor x (y * 2) / 2 ≡ bit_xor (x / 2) y =
      half-bit_xor x (y * 2) ∙ ap (λ t. bit_xor (x / 2) t) (omega arith) in
    rw (low, high) (either (bit_and x 1 == 1))
  where
    either :
        (b : Bool)
        → (if b then bit_xor 0xedb88320 (bit_xor (x / 2) y) else bit_xor (x / 2) y)
          ≡ bit_xor (if b then bit_xor 0xedb88320 (x / 2) else x / 2) y
    either true = sym (bit_xor_assoc 0xedb88320 (x / 2) y)
    either false = refl

rounds-bit_xor : (k x y : ℕ) → rounds k (bit_xor x (y * 2 ^ k)) ≡ bit_xor (rounds k x) y
unfolding rounds
rounds-bit_xor zero x y = ap (λ t. bit_xor x t) (omega arith)
rounds-bit_xor (suc k) x y =
    let e : y * 2 ^ suc k ≡ y * 2 ^ k * 2 = omega (arith, ap (λ (t : ℕ). y * t) (pow-suc 2 k)) in
    ap (λ t. rounds k (shift_round (bit_xor x t))) e
    ∙ ap (rounds k) (shift_round-bit_xor x (y * 2 ^ k))
    ∙ rounds-bit_xor k (shift_round x) y

halve : (n k : ℕ) → n / 2 ^ suc k ≡ n / 2 / 2 ^ k
halve n k =
    ap (λ t. n / t) (pow-suc 2 k ∙ mul_comm (2 ^ k) 2) ∙ sym (div-div-eq-div-mul n 2 (2 ^ k))

shifted : (k a b : ℕ) → bit_xor a b / 2 ^ k ≡ bit_xor (a / 2 ^ k) (b / 2 ^ k)
shifted zero a b = let e : (n : ℕ) → n / 1 ≡ n = λ n. omega arith in rw (e (bit_xor a b), e a, e b)
shifted (suc k) a b =
    let e : (n : ℕ) → n / 2 ^ suc k ≡ n / 2 / 2 ^ k = λ n. halve n k in
    rw (e (bit_xor a b), e a, e b, half-bit_xor a b) (shifted k (a / 2) (b / 2))

-- The table and the shift do the work of eight rounds.
crc_step-bitwise : (c b : ℕ) → b < 256 → crc_step c b ≡ bitwise_step c b
unfolding crc_table bitwise_step
crc_step-bitwise c b h =
    let x = bit_xor c b in
    let high : x / 256 ≡ c / 256 =
      shifted 8 c b ∙ ap (λ t. bit_xor (c / 256) t) (omega arith) ∙ bit_xor-zero (c / 256) in
    let whole : bit_xor (x % 256) (x / 256 * 2 ^ 8) ≡ x =
      bit_xor_fields 8 (x % 256) (x / 256) (omega arith) ∙ omega arith in
    ap₂ (λ s t. bit_xor (rounds 8 s) t) (bit_and_mask 8 x) (sym high)
    ∙ sym (rounds-bit_xor 8 (x % 256) (x / 256))
    ∙ ap (rounds 8) whole

crc_loop-bitwise :
    (bytes : List ℕ) (c : ℕ) → All IsByte bytes → crc_loop bytes c ≡ bitwise_loop bytes c
unfolding crc_loop bitwise_loop
crc_loop-bitwise [] c h = refl
crc_loop-bitwise (b ∷ bytes) c h =
    ap (crc_loop bytes) (crc_step-bitwise c b h.0) ∙ crc_loop-bitwise bytes (bitwise_step c b) h.1

-- For every byte string the table gives the bit-by-bit CRC-32.
pub crc32-eq-bitwise : (bytes : List ℕ) → All IsByte bytes → crc32 bytes ≡ bitwise_crc32 bytes
unfolding crc32 bitwise_crc32
crc32-eq-bitwise bytes h = ap (λ t. bit_xor t 0xffffffff) (crc_loop-bitwise bytes 0xffffffff h)

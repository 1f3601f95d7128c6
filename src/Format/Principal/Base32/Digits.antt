-- ===== src/Format/Principal/Base32/Digits.antt =====
-- The rounds of both base32 loops as arithmetic, at each number of waiting bits.
use Prim.Native.Nat.{bit_or}
use candid_core.Common.{
  ℕ, ◌+◌, ◌*◌, ◌/◌, ◌%◌, ◌<◌, Bool, true, false, List, [], ◌∷◌, ◌++◌, ◌≡◌, refl, arith, ◌==◌,
  Option, none, some,
}
use candid_core.Common.Bits.{bit_and_mask, bit_or_fields, shl}
use candid_core.Common.Tables.{all_below, all_below_sound}
use candid_core.Format.Chars.{Text}
use candid_core.Format.Principal.Base32.{b32_char, b32_value, drain, encode_byte, decode_digit}

is_value : Option ℕ → ℕ → Bool
is_value none i = false
is_value (some j) i = j == i

is_value→eq : (o : Option ℕ) (i : ℕ) → is_value o i ≡ true → o ≡ some i
unfolding is_value
is_value→eq o i h = ground arith

pub b32_value-b32_char : (i : ℕ) → i < 32 → b32_value (b32_char i) ≡ some i
b32_value-b32_char i h = is_value→eq (b32_value (b32_char i)) i (
    all_below_sound 32 (λ i. is_value (b32_value (b32_char i)) i) i
      (unfold b32_char b32_value all_below is_value in refl) h)

or_five : (a v : ℕ) → v < 32 → bit_or (shl a 5) v ≡ a * 32 + v
or_five a v h = bit_or_fields 5 a v h

or_eight : (a b : ℕ) → b < 256 → bit_or (shl a 8) b ≡ a * 256 + b
or_eight a b h = bit_or_fields 8 a b h

-- A digit that completes no byte waits.
module _ (a v : ℕ) (out : List ℕ) (hv : v < 32) where
  pub wait_zero :
      a ≡ 0
      → decode_digit v (record { acc = a; bits = 0; out = out })
        ≡ record { acc = v; bits = 5; out = out }
  wait_zero h =
      let e : (a * 32 + v) % 32 ≡ v = omega arith in
      rw (or_five a v hv, bit_and_mask 5 (a * 32 + v), e)

  pub wait_one :
      a < 2
      → decode_digit v (record { acc = a; bits = 1; out = out })
        ≡ record { acc = a * 32 + v; bits = 6; out = out }
  wait_one h =
      let e : (a * 32 + v) % 64 ≡ a * 32 + v = omega arith in
      rw (or_five a v hv, bit_and_mask 6 (a * 32 + v), e)

  pub wait_two :
      a < 4
      → decode_digit v (record { acc = a; bits = 2; out = out })
        ≡ record { acc = a * 32 + v; bits = 7; out = out }
  wait_two h =
      let e : (a * 32 + v) % 128 ≡ a * 32 + v = omega arith in
      rw (or_five a v hv, bit_and_mask 7 (a * 32 + v), e)

  -- A digit that completes one gives it, and keeps the rest.
  pub give_three :
      a < 8
      → decode_digit v (record { acc = a; bits = 3; out = out })
        ≡ record { acc = 0; bits = 0; out = out ++ (a * 32 + v) ∷ [] }
  give_three h =
      let e : (a * 32 + v) % 1 ≡ 0 = omega arith in
      let f : (a * 32 + v) / 1 % 256 ≡ a * 32 + v = omega arith in
      rw (or_five a v hv, bit_and_mask 0 (a * 32 + v), bit_and_mask 8 ((a * 32 + v) / 1), e, f)

  pub give_four :
      a < 16
      → decode_digit v (record { acc = a; bits = 4; out = out })
        ≡ record { acc = v % 2; bits = 1; out = out ++ (a * 16 + v / 2) ∷ [] }
  give_four h =
      let e : (a * 32 + v) % 2 ≡ v % 2 = omega arith in
      let f : (a * 32 + v) / 2 % 256 ≡ a * 16 + v / 2 = omega arith in
      rw (or_five a v hv, bit_and_mask 1 (a * 32 + v), bit_and_mask 8 ((a * 32 + v) / 2), e, f)

  pub give_five :
      a < 32
      → decode_digit v (record { acc = a; bits = 5; out = out })
        ≡ record { acc = v % 4; bits = 2; out = out ++ (a * 8 + v / 4) ∷ [] }
  give_five h =
      let e : (a * 32 + v) % 4 ≡ v % 4 = omega arith in
      let f : (a * 32 + v) / 4 % 256 ≡ a * 8 + v / 4 = omega arith in
      rw (or_five a v hv, bit_and_mask 2 (a * 32 + v), bit_and_mask 8 ((a * 32 + v) / 4), e, f)

  pub give_six :
      a < 64
      → decode_digit v (record { acc = a; bits = 6; out = out })
        ≡ record { acc = v % 8; bits = 3; out = out ++ (a * 4 + v / 8) ∷ [] }
  give_six h =
      let e : (a * 32 + v) % 8 ≡ v % 8 = omega arith in
      let f : (a * 32 + v) / 8 % 256 ≡ a * 4 + v / 8 = omega arith in
      rw (or_five a v hv, bit_and_mask 3 (a * 32 + v), bit_and_mask 8 ((a * 32 + v) / 8), e, f)

  pub give_seven :
      a < 128
      → decode_digit v (record { acc = a; bits = 7; out = out })
        ≡ record { acc = v % 16; bits = 4; out = out ++ (a * 2 + v / 16) ∷ [] }
  give_seven h =
      let e : (a * 32 + v) % 16 ≡ v % 16 = omega arith in
      let f : (a * 32 + v) / 16 % 256 ≡ a * 2 + v / 16 = omega arith in
      rw (or_five a v hv, bit_and_mask 4 (a * 32 + v), bit_and_mask 8 ((a * 32 + v) / 16), e, f)

-- A byte gives one digit or two, as the bits that wait make up.
module _ (a b : ℕ) (out : Text) (hb : b < 256) where
  pub byte_zero :
      a < 1
      → encode_byte b (record { acc = a; bits = 0; out = out })
        ≡ record { acc = b % 8; bits = 3; out = out ++ b32_char (b / 8) ∷ [] }
  unfolding drain
  byte_zero h =
      let e : (a * 256 + b) % 8 ≡ b % 8 = omega arith in
      let f : (a * 256 + b) / 8 % 32 ≡ b / 8 = omega arith in
      rw (or_eight a b hb, bit_and_mask 3 (a * 256 + b), bit_and_mask 5 ((a * 256 + b) / 8), e, f)

  pub byte_one :
      a < 2
      → encode_byte b (record { acc = a; bits = 1; out = out })
        ≡ record { acc = b % 16; bits = 4; out = out ++ b32_char (a * 16 + b / 16) ∷ [] }
  unfolding drain
  byte_one h =
      let e : (a * 256 + b) % 16 ≡ b % 16 = omega arith in
      let f : (a * 256 + b) / 16 % 32 ≡ a * 16 + b / 16 = omega arith in
      rw (or_eight a b hb, bit_and_mask 4 (a * 256 + b), bit_and_mask 5 ((a * 256 + b) / 16), e, f)

  pub byte_two :
      a < 4
      → encode_byte b (record { acc = a; bits = 2; out = out }) ≡ record {
        acc = 0;
        bits = 0;
        out = (out ++ b32_char (a * 8 + b / 32) ∷ []) ++ b32_char (b % 32) ∷ [];
      }
  unfolding drain
  byte_two h =
      let e : (a * 256 + b) % 1 ≡ 0 = omega arith in
      let f : (a * 256 + b) / 32 % 32 ≡ a * 8 + b / 32 = omega arith in
      let g : (a * 256 + b) / 1 % 32 ≡ b % 32 = omega arith in
      rw (
        or_eight a b hb,
        bit_and_mask 0 (a * 256 + b),
        bit_and_mask 5 ((a * 256 + b) / 32),
        bit_and_mask 5 ((a * 256 + b) / 1),
        e,
        f,
        g,
      )

  pub byte_three :
      a < 8
      → encode_byte b (record { acc = a; bits = 3; out = out }) ≡ record {
        acc = b % 2;
        bits = 1;
        out = (out ++ b32_char (a * 4 + b / 64) ∷ []) ++ b32_char (b / 2 % 32) ∷ [];
      }
  unfolding drain
  byte_three h =
      let e : (a * 256 + b) % 2 ≡ b % 2 = omega arith in
      let f : (a * 256 + b) / 64 % 32 ≡ a * 4 + b / 64 = omega arith in
      let g : (a * 256 + b) / 2 % 32 ≡ b / 2 % 32 = omega arith in
      rw (
        or_eight a b hb,
        bit_and_mask 1 (a * 256 + b),
        bit_and_mask 5 ((a * 256 + b) / 64),
        bit_and_mask 5 ((a * 256 + b) / 2),
        e,
        f,
        g,
      )

  pub byte_four :
      a < 16
      → encode_byte b (record { acc = a; bits = 4; out = out }) ≡ record {
        acc = b % 4;
        bits = 2;
        out = (out ++ b32_char (a * 2 + b / 128) ∷ []) ++ b32_char (b / 4 % 32) ∷ [];
      }
  unfolding drain
  byte_four h =
      let e : (a * 256 + b) % 4 ≡ b % 4 = omega arith in
      let f : (a * 256 + b) / 128 % 32 ≡ a * 2 + b / 128 = omega arith in
      let g : (a * 256 + b) / 4 % 32 ≡ b / 4 % 32 = omega arith in
      rw (
        or_eight a b hb,
        bit_and_mask 2 (a * 256 + b),
        bit_and_mask 5 ((a * 256 + b) / 128),
        bit_and_mask 5 ((a * 256 + b) / 4),
        e,
        f,
        g,
      )

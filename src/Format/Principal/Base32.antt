-- ===== src/Format/Principal/Base32.antt =====
-- `base32Encode` and `base32Decode` of profile/packages/format/src/principal.mjs.
pub mod Digits
pub mod Alphabet
pub mod Follows
pub mod RoundTrip
use Prim.Native.Nat.{bit_and, bit_or}
use candid_core.Common.{
  ℕ, zero, suc, ◌+◌, ◌-◌, ◌*◌, ◌/◌, ◌%◌, Bool, true, false, not, ◌||◌, List, [], ◌∷◌, ◌++◌, ltb,
  leb, ◌==◌, if◌then◌else◌, get_or, Option, none, some,
}
use candid_core.Common.Bits.{shl, shr}
use candid_core.Format.Chars.{Text, codes}

abbrev pub alphabet : Text
alphabet = codes "abcdefghijklmnopqrstuvwxyz234567"

-- ALPHABET[i].
unfoldable pub b32_char : ℕ → ℕ
b32_char i = get_or alphabet i 0

-- `s.indexOf(c)`, with `none` for -1.
unfoldable pub index_of : ℕ → Text → Option ℕ
index_of c [] = none
index_of c (d ∷ s) =
    if c == d then some 0 else elim (index_of c s) [ none ↦ none | some i ↦ some (suc i) ]

-- ALPHABET.indexOf(c).
unfoldable pub b32_value : ℕ → Option ℕ
unfolding index_of
b32_value c = index_of c alphabet

-- The variables of both loops.
pub record Bits : Type 0 where
  pub acc : ℕ
  pub bits : ℕ
  pub out : List ℕ

-- The inner loop of the encoder: a digit for every five bits.
unfoldable pub drain : ℕ → ℕ → Text → ℕ × Text
drain acc (suc (suc (suc (suc (suc left))))) out =
    drain acc left (out ++ b32_char (bit_and (shr acc left) 31) ∷ [])
drain acc bits out = (bits, out)

abbrev pub encode_byte : ℕ → Bits → Bits
encode_byte b s =
    let acc = bit_or (shl s.acc 8) b in
    let (bits, out) = drain acc (s.bits + 8) s.out in
    record { acc = bit_and acc (shl 1 bits - 1); bits = bits; out = out }

unfoldable pub encode_loop : List ℕ → Bits → Bits
unfolding drain
encode_loop [] s = s
encode_loop (b ∷ bytes) s = encode_loop bytes (encode_byte b s)

-- What is left over makes one more digit.
abbrev pub encode_end : Bits → Text
encode_end s =
    if ltb 0 s.bits then s.out ++ b32_char (bit_and (shl s.acc (5 - s.bits)) 31) ∷ [] else s.out

abbrev pub start : Bits
start = record { acc = 0; bits = 0; out = [] }

unfoldable pub base32_encode : List ℕ → Text
unfolding encode_loop
base32_encode bytes = encode_end (encode_loop bytes start)

-- One round of the decoder: five bits in, and a byte out where eight are there.
abbrev pub decode_digit : ℕ → Bits → Bits
decode_digit v s =
    let acc = bit_or (shl s.acc 5) v in
    let bits = s.bits + 5 in
    if leb 8 bits
    then record {
      acc = bit_and acc (shl 1 (bits - 8) - 1);
      bits = bits - 8;
      out = s.out ++ bit_and (shr acc (bits - 8)) 0xff ∷ [];
    }
    else record { acc = bit_and acc (shl 1 bits - 1); bits = bits; out = s.out }

unfoldable pub decode_loop : Text → Bits → Option Bits
decode_loop [] s = some s
decode_loop (c ∷ text) s = elim (b32_value c) [
  | none ↦ none
  | some v ↦ decode_loop text (decode_digit v s)
]

-- A stray digit or spare bits that are not zero are refused.
abbrev pub decode_end : Option Bits → Option (List ℕ)
decode_end none = none
decode_end (some s) = if leb 5 s.bits || not (s.acc == 0) then none else some s.out

unfoldable pub base32_decode : Text → Option (List ℕ)
unfolding decode_loop
base32_decode text = decode_end (decode_loop text start)

-- ===== src/Format/Bytes/Utf8.antt =====
-- UTF-8 as profile/packages/format/src/bytes.mjs uses it: `new TextEncoder().encode`, and the fatal
-- `TextDecoder` that keeps a byte order mark, by the state machine of the Encoding Standard.
pub mod Steps
pub mod Exact
use candid_core.Common.{
  ℕ, ◌+◌, ◌-◌, ◌*◌, ◌/◌, ◌%◌, Bool, true, false, List, [], ◌∷◌, ◌++◌, ltb, ◌==◌, if◌then◌else◌,
  Option, none, some,
}
use candid_core.Format.Chars.{between}

-- The bytes of a code point, and of a text's code points.
unfoldable pub utf8_char : ℕ → List ℕ
utf8_char c =
    if ltb c 0x80
    then c ∷ []
    else if ltb c 0x800
    then (0xc0 + c / 64) ∷ (0x80 + c % 64) ∷ []
    else if ltb c 0x10000
    then (0xe0 + c / 4096) ∷ (0x80 + c / 64 % 64) ∷ (0x80 + c % 64) ∷ []
    else (0xf0 + c / 262144) ∷ (0x80 + c / 4096 % 64) ∷ (0x80 + c / 64 % 64) ∷ (0x80 + c % 64) ∷ []

unfoldable pub utf8_encode : List ℕ → List ℕ
unfolding utf8_char
utf8_encode [] = []
utf8_encode (c ∷ text) = utf8_char c ++ utf8_encode text

-- A code point that is not complete: how many bytes are left, what is known of it, and the bounds on
-- the next byte.
pub record Pending : Type 0 where
  pub left : ℕ
  pub point : ℕ
  pub lower : ℕ
  pub upper : ℕ

pub data Step : Type 0 where
  emit : ℕ → Step
  wait : Pending → Step

unfoldable pub first_byte : ℕ → Option Step
first_byte b =
    if ltb b 0x80
    then some (emit b)
    else if between 0xc2 0xdf b
    then some (wait (record { left = 1; point = b - 0xc0; lower = 0x80; upper = 0xbf }))
    else if between 0xe0 0xef b
    then some (
        wait (record {
          left = 2;
          point = b - 0xe0;
          lower = if b == 0xe0 then 0xa0 else 0x80;
          upper = if b == 0xed then 0x9f else 0xbf;
        }))
    else if between 0xf0 0xf4 b
    then some (
        wait (record {
          left = 3;
          point = b - 0xf0;
          lower = if b == 0xf0 then 0x90 else 0x80;
          upper = if b == 0xf4 then 0x8f else 0xbf;
        }))
    else none

unfoldable pub next_byte : Pending → ℕ → Option Step
next_byte p b =
    if between p.lower p.upper b
    then if p.left == 1
      then some (emit (p.point * 64 + (b - 0x80)))
      else some (
          wait (record {
            left = p.left - 1;
            point = p.point * 64 + (b - 0x80);
            lower = 0x80;
            upper = 0xbf;
          }))
    else none

abbrev pub step : Option Pending → ℕ → Option Step
step none b = first_byte b
step (some p) b = next_byte p b

abbrev pub cons_point : ℕ → Option (List ℕ) → Option (List ℕ)
cons_point c none = none
cons_point c (some text) = some (c ∷ text)

-- `none` where the bytes are not UTF-8.
unfoldable pub decode_from : Option Pending → List ℕ → Option (List ℕ)
unfolding first_byte next_byte
decode_from none [] = some []
decode_from (some p) [] = none
decode_from state (b ∷ bytes) = elim (step state b) [
  | none ↦ none
  | some (emit c) ↦ cons_point c (decode_from none bytes)
  | some (wait p) ↦ decode_from (some p) bytes
]

unfoldable pub utf8_decode : List ℕ → Option (List ℕ)
unfolding decode_from
utf8_decode = decode_from none

-- ===== src/Format/Bytes/Base64.antt =====
-- `base64Encode` and `base64Decode` of profile/packages/format/src/bytes.mjs.
pub mod Digits
pub mod RoundTrip
use Prim.Native.Nat.{bit_and, bit_or}
use candid_core.Common.{
  ℕ, zero, suc, ◌+◌, ◌-◌, ◌*◌, ◌/◌, ◌%◌, ◌≤◌, ◌<◌, Bool, true, false, not, ◌&&◌, ◌||◌, List, [],
  ◌∷◌, ◌++◌, ◌≡◌, refl, arith, ltb, leb, ◌==◌, if◌then◌else◌, length, all, get_or, take_while,
  drop_while,
}
use candid_core.Common.Bits.{shl, shr}
use candid_core.Format.Errors.{Code, Result, ok, err, ◌>>=◌, ◌>>◌, fail_if}
use candid_core.Format.Chars.{Text, codes, between}

abbrev pub b64 : Text
b64 = codes "ABCDEFGHIJKLMNOPQRSTUVWXYZabcdefghijklmnopqrstuvwxyz0123456789+/"

-- B64[i].
unfoldable pub b64_char : ℕ → ℕ
b64_char i = get_or b64 i 0

-- Where a character stands in a text.
pub position : ℕ → Text → ℕ
position c [] = 0
position c (d ∷ s) = elim (c == d) [ true ↦ 0 | false ↦ suc (position c s) ]

-- B64_VALUE[c], of a character of the alphabet.
unfoldable pub b64_value : ℕ → ℕ
unfolding position
b64_value c = position c b64

-- [A-Za-z0-9+/]
unfoldable pub is_b64 : ℕ → Bool
is_b64 c =
    between b'A' b'Z' c || between b'a' b'z' c || between b'0' b'9' c || c == b'+' || c == b'/'

-- One round of the encoder on up to three bytes; a missing byte counts as 0.
abbrev pub group : ℕ → ℕ → ℕ → ℕ
group a b c = bit_or (bit_or (shl a 16) (shl b 8)) c

unfoldable pub base64_encode : List ℕ → Text
unfolding b64_char
base64_encode [] = []
base64_encode (a ∷ []) =
    b64_char (bit_and (shr (group a 0 0) 18) 63)
    ∷ b64_char (bit_and (shr (group a 0 0) 12) 63)
    ∷ b'='
    ∷ b'='
    ∷ []
base64_encode (a ∷ b ∷ []) =
    b64_char (bit_and (shr (group a b 0) 18) 63)
    ∷ b64_char (bit_and (shr (group a b 0) 12) 63)
    ∷ b64_char (bit_and (shr (group a b 0) 6) 63)
    ∷ b'='
    ∷ []
base64_encode (a ∷ b ∷ c ∷ bytes) =
    b64_char (bit_and (shr (group a b c) 18) 63)
    ∷ b64_char (bit_and (shr (group a b c) 12) 63)
    ∷ b64_char (bit_and (shr (group a b c) 6) 63)
    ∷ b64_char (bit_and (group a b c) 63)
    ∷ base64_encode bytes

-- The variables of the decoder's loop.
pub record Bits : Type 0 where
  pub acc : ℕ
  pub bits : ℕ
  pub out : List ℕ

-- One round: six bits in, and a byte out where eight are there.
abbrev pub round : ℕ → Bits → Bits
round v s =
    let acc = bit_or (shl s.acc 6) v in
    let bits = s.bits + 6 in
    if leb 8 bits
    then record {
      acc = bit_and acc (shl 1 (bits - 8) - 1);
      bits = bits - 8;
      out = s.out ++ bit_and (shr acc (bits - 8)) 255 ∷ [];
    }
    else record { acc = bit_and acc (shl 1 bits - 1); bits = bits; out = s.out }

unfoldable pub decode_body : Text → Bits → Bits
decode_body [] s = s
decode_body (c ∷ body) s = decode_body body (round (b64_value c) s)

abbrev pub start : Bits
start = record { acc = 0; bits = 0; out = [] }

-- The tests on the length of the digits and the padding, and the loop.
unfoldable pub decode_parts : Text → Text → Result (List ℕ)
decode_parts body pad = do
  fail_if (not (all (λ c. c == b'=') pad) || ltb 2 (length pad)) Code.base64
  fail_if (length body % 4 == 1) Code.base64
  fail_if (leb 1 (length pad) && (length body % 4 == 0 || not (length pad == 4 - length body % 4)))
      Code.base64
  fail_if (not ((decode_body body start).acc == 0)) Code.base64
  ok (decode_body body start).out

unfoldable pub base64_decode : Text → Result (List ℕ)
base64_decode text = decode_parts (take_while is_b64 text) (drop_while is_b64 text)

-- ===== src/Format/Util/Hex.antt =====
-- `bytesToHex` and `hexToBytes` of profile/packages/format/src/util.mjs. A byte is a number below 256.
use candid_core.Common.{
  ℕ, ◌+◌, ◌-◌, ◌*◌, ◌/◌, ◌%◌, ◌<◌, Bool, true, not, ◌||◌, List, [], ◌∷◌, ◌≡◌, refl, ap, arith, ◌==◌,
  if◌then◌else◌, length, all, Option, none, some, get_or, All, ==_iff,
}
use candid_core.Common.Tables.{all_below, all_below_sound}
use candid_core.Common.Bits.{shr, bit_and_mask}
use Prim.Native.Nat.{bit_and}
use candid_core.Format.Chars.{Text, codes, between}

abbrev pub IsByte : ℕ → Type 0
IsByte b = b < 256

-- HEX[i].
unfoldable pub hex_digit : ℕ → ℕ
hex_digit i = get_or (codes "0123456789abcdef") i 0

unfoldable pub bytes_to_hex : List ℕ → Text
unfolding hex_digit
bytes_to_hex [] = []
bytes_to_hex (b ∷ bs) = hex_digit (shr b 4) ∷ hex_digit (bit_and b 15) ∷ bytes_to_hex bs

-- [0-9a-fA-F]
unfoldable pub is_hex : ℕ → Bool
is_hex c = between b'0' b'9' c || between b'a' b'f' c || between b'A' b'F' c

-- `parseInt` of one hex digit.
unfoldable pub hex_value : ℕ → ℕ
hex_value c =
    if between b'0' b'9' c
    then c - b'0'
    else if between b'a' b'f' c
    then c - b'a' + 10
    else c - b'A' + 10

-- The loop over pairs of digits.
unfoldable pub read_pairs : Text → List ℕ
read_pairs [] = []
read_pairs (c ∷ []) = []
read_pairs (c ∷ d ∷ s) = (hex_value c * 16 + hex_value d) ∷ read_pairs s

unfoldable pub hex_to_bytes : Text → Option (List ℕ)
unfolding read_pairs is_hex hex_value
hex_to_bytes hex =
    if not (length hex % 2 == 0) || not (all is_hex hex) then none else some (read_pairs hex)

pub hex_digit-is_hex : (i : ℕ) → i < 16 → is_hex (hex_digit i) ≡ true
hex_digit-is_hex i h =
    all_below_sound 16 (λ i. is_hex (hex_digit i)) i (unfold hex_digit is_hex all_below in refl) h

pub hex_value-hex_digit : (i : ℕ) → i < 16 → hex_value (hex_digit i) ≡ i
hex_value-hex_digit i h = (==_iff (hex_value (hex_digit i)) i).0 (
    all_below_sound 16 (λ i. hex_value (hex_digit i) == i) i
      (unfold hex_digit hex_value all_below in refl) h)

pub low_nibble : (b : ℕ) → bit_and b 15 ≡ b % 16
low_nibble b = bit_and_mask 4 b

read_pairs-bytes_to_hex : (bs : List ℕ) → All IsByte bs → read_pairs (bytes_to_hex bs) ≡ bs
unfolding read_pairs bytes_to_hex
read_pairs-bytes_to_hex [] h = refl
read_pairs-bytes_to_hex (b ∷ bs) h =
    let hi = hex_value-hex_digit (b / 16) (omega (arith, h.0)) in
    let lo = hex_value-hex_digit (b % 16) (omega arith) in
    let e : b / 16 * 16 + b % 16 ≡ b = omega arith in
    rw (low_nibble b, hi, lo, e) (ap (λ t. b ∷ t) (read_pairs-bytes_to_hex bs h.1))

pub all-bytes_to_hex : (bs : List ℕ) → All IsByte bs → all is_hex (bytes_to_hex bs) ≡ true
unfolding bytes_to_hex
all-bytes_to_hex [] h = refl
all-bytes_to_hex (b ∷ bs) h =
    let hi = hex_digit-is_hex (b / 16) (omega (arith, h.0)) in
    let lo = hex_digit-is_hex (b % 16) (omega arith) in
    rw (low_nibble b, hi, lo) (all-bytes_to_hex bs h.1)

pub length-bytes_to_hex : (bs : List ℕ) → length (bytes_to_hex bs) ≡ length bs * 2
unfolding bytes_to_hex
length-bytes_to_hex [] = refl
length-bytes_to_hex (b ∷ bs) = omega (arith, length-bytes_to_hex bs)

-- Bytes are read back from their hexadecimal text.
pub hex_to_bytes-bytes_to_hex :
    (bs : List ℕ) → All IsByte bs → hex_to_bytes (bytes_to_hex bs) ≡ some bs
unfolding hex_to_bytes
hex_to_bytes-bytes_to_hex bs h =
    let even : (length (bytes_to_hex bs) % 2 == 0) ≡ true =
      ground (arith, length-bytes_to_hex bs) in
    rw (even, all-bytes_to_hex bs h) (ap some (read_pairs-bytes_to_hex bs h))

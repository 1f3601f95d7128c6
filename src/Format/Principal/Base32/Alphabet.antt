-- ===== src/Format/Principal/Base32/Alphabet.antt =====
-- The characters of a base32 text of principal.mjs, how many there are, and that a decoded text is bytes.
use Prim.Native.Nat.{bit_and, bit_or}
use candid_core.Common.{
  ℕ, zero, suc, ◌+◌, ◌-◌, ◌*◌, ◌≤◌, ◌<◌, Bool, true, false, not, ◌||◌, List, [], ◌∷◌, ◌++◌, ◌≡◌,
  refl, subst, ap, ◌∙◌, arith, ltb, leb, ◌==◌, if◌then◌else◌, All, All-append, length,
  length-append, none, some, Option-cases, inl, inr,
}
use mathlib.Core.Option.{some-injective, none-ne-some}
use candid_core.Common.Bits.{bit_and_mask, shl, shr}
use candid_core.Common.Tables.{all_below, all_below_sound}
use candid_core.Format.Chars.{Text}
use candid_core.Format.Util.{IsByte}
use candid_core.Format.Principal.Base32.{
  b32_char, b32_value, Bits, drain, encode_byte, encode_loop, encode_end, start, base32_encode,
  decode_digit, decode_loop, base32_decode,
}

abbrev pub IsLetter : ℕ → Type 0
IsLetter c = (i : ℕ) × (i < 32) × (c ≡ b32_char i)

-- A test that every letter passes, by evaluation.
pub letter_test :
    (p : ℕ → Bool) (c : ℕ) → all_below 32 (λ i. p (b32_char i)) ≡ true → IsLetter c → p c ≡ true
letter_test p c h (i, hi, e) = ap p e ∙ all_below_sound 32 (λ i. p (b32_char i)) i h hi

masked-IsLetter : (n : ℕ) → IsLetter (b32_char (bit_and n 31))
masked-IsLetter n = let e = bit_and_mask 5 n in (bit_and n 31, omega (arith, e), refl)

drain-IsLetter :
    (acc bits : ℕ) (out : Text) → All IsLetter out → All IsLetter (drain acc bits out).1
unfolding drain
drain-IsLetter acc (suc (suc (suc (suc (suc left))))) out h =
    drain-IsLetter acc left (out ++ b32_char (bit_and (shr acc left) 31) ∷ [])
      (All-append IsLetter out _ h (masked-IsLetter (shr acc left), tt))
drain-IsLetter acc zero out h = h
drain-IsLetter acc (suc zero) out h = h
drain-IsLetter acc (suc (suc zero)) out h = h
drain-IsLetter acc (suc (suc (suc zero))) out h = h
drain-IsLetter acc (suc (suc (suc (suc zero)))) out h = h

encode_loop-IsLetter :
    (bytes : List ℕ) (s : Bits) → All IsLetter s.out → All IsLetter (encode_loop bytes s).out
unfolding encode_loop
encode_loop-IsLetter [] s h = h
encode_loop-IsLetter (b ∷ bytes) s h =
    encode_loop-IsLetter bytes (encode_byte b s)
      (drain-IsLetter (bit_or (shl s.acc 8) b) (s.bits + 8) s.out h)

encode_end-IsLetter : (s : Bits) → All IsLetter s.out → All IsLetter (encode_end s)
encode_end-IsLetter s h =
    elim (ltb 0 s.bits)
      as (λ b.
        All IsLetter
          (if b then s.out ++ b32_char (bit_and (shl s.acc (5 - s.bits)) 31) ∷ [] else s.out)) [
            | true ↦ All-append IsLetter s.out _ h (masked-IsLetter (shl s.acc (5 - s.bits)), tt)
            | false ↦ h
          ]

pub base32_encode-IsLetter : (bytes : List ℕ) → All IsLetter (base32_encode bytes)
unfolding base32_encode
base32_encode-IsLetter bytes =
    encode_end-IsLetter (encode_loop bytes start) (encode_loop-IsLetter bytes start tt)

-- Every five bits make a digit.
drain-size :
    (acc bits : ℕ) (out : Text)
    → (drain acc bits out).0 + 5 * length (drain acc bits out).1 ≡ bits + 5 * length out
unfolding drain
drain-size acc (suc (suc (suc (suc (suc left))))) out =
    let d = b32_char (bit_and (shr acc left) 31) ∷ [] in
    drain-size acc left (out ++ d) ∙ omega (arith, length-append out d)
drain-size acc zero out = refl
drain-size acc (suc zero) out = refl
drain-size acc (suc (suc zero)) out = refl
drain-size acc (suc (suc (suc zero))) out = refl
drain-size acc (suc (suc (suc (suc zero)))) out = refl

encode_loop-size :
    (bytes : List ℕ) (s : Bits)
    → (encode_loop bytes s).bits + 5 * length (encode_loop bytes s).out
      ≡ 8 * length bytes + s.bits + 5 * length s.out
unfolding encode_loop
encode_loop-size [] s = omega arith
encode_loop-size (b ∷ bytes) s =
    encode_loop-size bytes (encode_byte b s)
    ∙ omega (arith, drain-size (bit_or (shl s.acc 8) b) (s.bits + 8) s.out)

encode_end-size : (s : Bits) → length (encode_end s) ≤ suc (length s.out)
encode_end-size s =
    let d = b32_char (bit_and (shl s.acc (5 - s.bits)) 31) ∷ [] in
    elim (ltb 0 s.bits) as (λ b. length (if b then s.out ++ d else s.out) ≤ suc (length s.out)) [
      | true ↦ omega (arith, length-append s.out d)
      | false ↦ omega arith
    ]

pub base32_encode-size : (bytes : List ℕ) → 5 * length (base32_encode bytes) ≤ 8 * length bytes + 5
unfolding base32_encode
base32_encode-size bytes =
    omega (arith, encode_end-size (encode_loop bytes start), encode_loop-size bytes start)

decode_digit-IsByte : (v : ℕ) (s : Bits) → All IsByte s.out → All IsByte (decode_digit v s).out
decode_digit-IsByte v s h = cases (leb 8 (s.bits + 5))
  where
    x : ℕ
    x = shr (bit_or (shl s.acc 5) v) (s.bits + 5 - 8)

    step : Bool → Bits
    step b =
        if b
        then record {
          acc = bit_and (bit_or (shl s.acc 5) v) (shl 1 (s.bits + 5 - 8) - 1);
          bits = s.bits + 5 - 8;
          out = s.out ++ bit_and x 0xff ∷ [];
        }
        else record {
          acc = bit_and (bit_or (shl s.acc 5) v) (shl 1 (s.bits + 5) - 1);
          bits = s.bits + 5;
          out = s.out;
        }

    cases : (b : Bool) → All IsByte (step b).out
    cases true = let e = bit_and_mask 8 x in All-append IsByte s.out _ h (omega (arith, e), tt)
    cases false = h

decode_loop-IsByte :
    (t : Text) (s d : Bits) → All IsByte s.out → decode_loop t s ≡ some d → All IsByte d.out
unfolding decode_loop
decode_loop-IsByte [] s d h e = subst (λ d. All IsByte d.out) (some-injective s d e) h
decode_loop-IsByte (c ∷ t) s d h e = elim (Option-cases (b32_value c)) [
  | inl missing ↦ absurd (none-ne-some d (rw (missing, decode_loop) at e))
  | inr (v, found) ↦
      decode_loop-IsByte t (decode_digit v s) d (decode_digit-IsByte v s h)
        (rw (found, decode_loop) at e)
]

pub base32_decode-IsByte :
    (t : Text) {bytes : List ℕ} → base32_decode t ≡ some bytes → All IsByte bytes
unfolding base32_decode
base32_decode-IsByte t {bytes} e = elim (Option-cases (decode_loop t start)) [
  | inl missing ↦ absurd (none-ne-some bytes (rw missing at e))
  | inr (d, found) ↦
      within d (decode_loop-IsByte t start d tt found) (leb 5 d.bits || not (d.acc == 0))
        (rw found at e)
]
  where
    within :
        (d : Bits)
        → All IsByte d.out
        → (b : Bool) → (if b then none else some d.out) ≡ some bytes
        → All IsByte bytes
    within d h true e = absurd (none-ne-some bytes e)
    within d h false e = subst (All IsByte) (some-injective d.out bytes e) h

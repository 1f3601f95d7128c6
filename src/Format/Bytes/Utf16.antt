-- ===== src/Format/Bytes/Utf16.antt =====
-- The string that a decoder of profile/packages/format/src/bytes.mjs gives, as UTF-16 code units, and
-- what the string iterator reads of it.
use candid_core.Common.{
  ℕ, ◌+◌, ◌-◌, ◌*◌, ◌/◌, ◌%◌, ◌≤◌, true, false, not, List, [], ◌∷◌, ◌++◌, ◌≡◌, refl, ap, ap₂, ◌∙◌,
  arith, ltb, if◌then◌else◌, All, all, Bool-cases, inl, inr,
}
use candid_core.Format.Chars.{Text, between, is_high, is_low, code_points, is_well_formed}
use candid_core.Format.Bytes.Utf8.Steps.{IsScalar}

unfoldable pub utf16_char : ℕ → Text
utf16_char c =
    if ltb c 0x10000
    then c ∷ []
    else (0xd800 + (c - 0x10000) / 0x400) ∷ (0xdc00 + (c - 0x10000) % 0x400) ∷ []

unfoldable pub utf16 : List ℕ → Text
unfolding utf16_char
utf16 [] = []
utf16 (c ∷ points) = utf16_char c ++ utf16 points

one_unit : (c : ℕ) (s : Text) → is_high c ≡ false → code_points (c ∷ s) ≡ c ∷ code_points s
unfolding code_points
one_unit c [] h = refl
one_unit c (d ∷ s) h = rw (h, code_points)

two_units :
    (c d : ℕ) (s : Text)
    → is_high c ≡ true
    → is_low d ≡ true
    → code_points (c ∷ d ∷ s) ≡ (0x10000 + (c - 0xd800) * 0x400 + (d - 0xdc00)) ∷ code_points s
unfolding code_points
two_units c d s h k = rw (h, k, code_points)

-- The iterator gives the code points back.
pub code_points-utf16 :
    (points : List ℕ) → All IsScalar points → code_points (utf16 points) ≡ points
unfolding code_points utf16
code_points-utf16 [] h = refl
code_points-utf16 (c ∷ points) ((gap, top), h) = elim (Bool-cases (ltb c 0x10000)) [
  | inl basic ↦
      rw basic
        (one_unit c (utf16 points) (ground arith) ∙ ap (λ s. c ∷ s) (code_points-utf16 points h))
  | inr astral ↦
      let low : 0x10000 ≤ c = ground arith in
      rw astral (
        two_units (0xd800 + (c - 0x10000) / 0x400) (0xdc00 + (c - 0x10000) % 0x400) (utf16 points)
          (ground arith) (ground arith)
        ∙ ap₂ (λ c s. c ∷ s) (omega arith) (code_points-utf16 points h))
]

no_surrogates :
    (points : List ℕ) → All IsScalar points → all (λ c. not (between 0xd800 0xdfff c)) points ≡ true
no_surrogates [] h = refl
no_surrogates (c ∷ points) ((gap, top), h) =
    let e : between 0xd800 0xdfff c ≡ false = ground arith in rw e (no_surrogates points h)

pub utf16-is_well_formed :
    (points : List ℕ) → All IsScalar points → is_well_formed (utf16 points) ≡ true
unfolding is_well_formed
utf16-is_well_formed points h = rw (code_points-utf16 points h) (no_surrogates points h)

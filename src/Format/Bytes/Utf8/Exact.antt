-- ===== src/Format/Bytes/Utf8/Exact.antt =====
-- What the UTF-8 decoder that profile/packages/format/src/bytes.mjs uses accepts is the encoding of what
-- it gives.
use candid_core.Common.{
  ℕ, List, [], ◌∷◌, ◌++◌, ◌≡◌, refl, sym, ap, ap₂, ◌∙◌, inl, inr, Option, none, some, Option-cases,
  append_assoc, subst, All,
}
use mathlib.Core.Option.{some-injective, none-ne-some}
use candid_core.Format.Bytes.Utf8.{
  utf8_encode, Pending, Step, emit, wait, first_byte, next_byte, step, cons_point, decode_from,
  utf8_decode,
}
use candid_core.Format.Bytes.Utf8.Steps.{
  Advances, IsScalar, Partial, first-Advances, next-Advances, state,
}

-- The bytes that the decoder's state holds.
abbrev Held : Option Pending → List ℕ → Type 0
Held none bytes = bytes ≡ []
Held (some p) bytes = Partial p bytes

step-Advances :
    (state : Option Pending) (held : List ℕ) (b : ℕ)
    → Held state held
    → Advances (step state b) (held ++ b ∷ [])
step-Advances none held b h = rw h (first-Advances b)
step-Advances (some p) held b h = next-Advances b h

cons_point-some :
    (c : ℕ) (o : Option (List ℕ)) {text : List ℕ}
    → cons_point c o ≡ some text
    → (rest : List ℕ) × (o ≡ some rest) × (c ∷ rest ≡ text)
cons_point-some c none {text} h = absurd (none-ne-some text h)
cons_point-some c (some rest) h = (rest, refl, some-injective _ _ h)

-- What the decoder does after a step.
abbrev taken : Step → List ℕ → Option (List ℕ)
taken s bytes = elim s [
  | emit c ↦ cons_point c (decode_from none bytes)
  | wait p ↦ decode_from (some p) bytes
]

abbrev Encodes : Option Pending → List ℕ → List ℕ → Type 0
Encodes state held bytes =
    (text : List ℕ)
    → decode_from state bytes ≡ some text
    → (utf8_encode text ≡ held ++ bytes) × All IsScalar text

moved :
    (held bytes : List ℕ) (b : ℕ) (s : Step) (text : List ℕ)
    → Advances (some s) (held ++ b ∷ [])
    → Encodes none [] bytes
    → ((p : Pending) → Partial p (held ++ b ∷ []) → Encodes (some p) (held ++ b ∷ []) bytes)
    → taken s bytes ≡ some text
    → (utf8_encode text ≡ held ++ b ∷ bytes) × All IsScalar text
unfolding utf8_encode
moved held bytes b (emit c) text adv fresh more e =
    let (rest, d, t) = cons_point-some c (decode_from none bytes) e in
    let (same, scalars) = fresh rest d in
    (
      ap utf8_encode (sym t) ∙ ap₂ (λ s t. s ++ t) adv.0 same ∙ append_assoc held (b ∷ []) bytes,
      subst (All IsScalar) t (adv.1, scalars),
    )
moved held bytes b (wait p) text adv fresh more e =
    let (same, scalars) = more p adv text e in (same ∙ append_assoc held (b ∷ []) bytes, scalars)

decode_from-encode :
    (bytes : List ℕ) (state : Option Pending) (held : List ℕ)
    → Held state held
    → Encodes state held bytes
unfolding decode_from utf8_encode
decode_from-encode [] none held h text e =
    let t = some-injective _ _ e in (rw h (ap utf8_encode (sym t)), subst (All IsScalar) t tt)
decode_from-encode [] (some p) held h text e = absurd (none-ne-some text e)
decode_from-encode (b ∷ bytes) none held h text e = elim (Option-cases (first_byte b)) [
  | inl bad ↦ absurd (none-ne-some text (rw (bad, decode_from) at e))
  | inr (s, good) ↦
      moved held bytes b s text
        (subst (λ o. Advances o (held ++ b ∷ [])) good (step-Advances none held b h))
        (decode_from-encode bytes none [] refl)
        (λ p part. decode_from-encode bytes (some p) (held ++ b ∷ []) part)
        (rw (good, decode_from) at e)
]
decode_from-encode (b ∷ bytes) (some q) held h text e = elim (Option-cases (next_byte q b)) [
  | inl bad ↦ absurd (none-ne-some text (rw (bad, decode_from) at e))
  | inr (s, good) ↦
      moved held bytes b s text
        (subst (λ o. Advances o (held ++ b ∷ [])) good (step-Advances (some q) held b h))
        (decode_from-encode bytes none [] refl)
        (λ p part. decode_from-encode bytes (some p) (held ++ b ∷ []) part)
        (rw (good, decode_from) at e)
]

-- Bytes that the decoder accepts are the encoding of the text that it gives, which has no surrogates.
pub utf8_encode-utf8_decode :
    (bytes : List ℕ) {text : List ℕ}
    → utf8_decode bytes ≡ some text
    → (utf8_encode text ≡ bytes) × All IsScalar text
unfolding utf8_decode
utf8_encode-utf8_decode bytes {text} e = decode_from-encode bytes none [] refl text e

-- ===== src/Format/Principal/Canonical.antt =====
-- The canonical text of a principal, of principal.mjs: its letters, its dashes and its length.
use candid_core.Common.{
  ℕ, ◌+◌, ◌*◌, ◌≤◌, false, not, List, [], ◌∷◌, ◌++◌, append-nil, ◌≡◌, refl, sym, ap, ◌∙◌, arith,
  ◌==◌, All, All-append, All-map, length, some,
}
use candid_core.Common.Tables.{all_below}
use candid_core.Format.Chars.{Text}
use candid_core.Format.Util.{IsByte}
use candid_core.Format.Principal.{
  word_bytes, crc32_big_endian, lower_unit, lower_case, without_dashes, groups_of_five,
  canonical_text,
}
use candid_core.Format.Principal.Crc.{crc32}
use candid_core.Format.Principal.Base32.{b32_char, base32_encode, base32_decode}
use candid_core.Format.Principal.Base32.Alphabet.{
  IsLetter, letter_test, base32_encode-IsLetter, base32_encode-size,
}
use candid_core.Format.Principal.Base32.RoundTrip.{base32_decode-base32_encode}

letter-not_dash : (c : ℕ) → IsLetter c → (c == b'-') ≡ false
letter-not_dash c h =
    let e = letter_test (λ c. not (c == b'-')) c (unfold all_below b32_char in refl) h in
    ground arith

unfoldable pub IsLower : ℕ → Type 0
IsLower c = lower_unit c ≡ c

pub letter-IsLower : (c : ℕ) → IsLetter c → IsLower c
unfolding IsLower
letter-IsLower c h =
    let e = letter_test (λ c. lower_unit c == c) c (unfold all_below b32_char in refl) h in
    ground arith

pub All-groups_of_five : (P : ℕ → Type 0) (s : Text) → P b'-' → All P s → All P (groups_of_five s)
unfolding groups_of_five
All-groups_of_five P (a ∷ b ∷ c ∷ d ∷ e ∷ f ∷ s) p (ha, (hb, (hc, (hd, (he, h))))) =
    (ha, (hb, (hc, (hd, (he, (p, All-groups_of_five P (f ∷ s) p h))))))
All-groups_of_five P [] p h = h
All-groups_of_five P (_ ∷ []) p h = h
All-groups_of_five P (_ ∷ _ ∷ []) p h = h
All-groups_of_five P (_ ∷ _ ∷ _ ∷ []) p h = h
All-groups_of_five P (_ ∷ _ ∷ _ ∷ _ ∷ []) p h = h
All-groups_of_five P (_ ∷ _ ∷ _ ∷ _ ∷ _ ∷ []) p h = h

groups_of_five-size : (s : Text) → length (groups_of_five s) ≤ 2 * length s
unfolding groups_of_five
groups_of_five-size (a ∷ b ∷ c ∷ d ∷ e ∷ f ∷ s) = omega (arith, groups_of_five-size (f ∷ s))
groups_of_five-size [] = omega arith
groups_of_five-size (_ ∷ []) = omega arith
groups_of_five-size (_ ∷ _ ∷ []) = omega arith
groups_of_five-size (_ ∷ _ ∷ _ ∷ []) = omega arith
groups_of_five-size (_ ∷ _ ∷ _ ∷ _ ∷ []) = omega arith
groups_of_five-size (_ ∷ _ ∷ _ ∷ _ ∷ _ ∷ []) = omega arith

without_dashes-append :
    (s t : Text) → All IsLetter s → without_dashes (s ++ t) ≡ s ++ without_dashes t
unfolding without_dashes
without_dashes-append [] t h = refl
without_dashes-append (c ∷ s) t h =
    rw (letter-not_dash c h.0) (ap (λ t. c ∷ t) (without_dashes-append s t h.1))

without_dashes-letters : (s : Text) → All IsLetter s → without_dashes s ≡ s
unfolding without_dashes
without_dashes-letters s h =
    ap without_dashes (sym (append-nil s)) ∙ without_dashes-append s [] h ∙ append-nil s

without_dashes-groups_of_five : (s : Text) → All IsLetter s → without_dashes (groups_of_five s) ≡ s
unfolding groups_of_five without_dashes
without_dashes-groups_of_five (a ∷ b ∷ c ∷ d ∷ e ∷ f ∷ s) (ha, (hb, (hc, (hd, (he, h))))) =
    without_dashes-append (a ∷ b ∷ c ∷ d ∷ e ∷ []) (b'-' ∷ groups_of_five (f ∷ s))
      (ha, (hb, (hc, (hd, (he, tt)))))
    ∙ ap (λ t. a ∷ b ∷ c ∷ d ∷ e ∷ t) (without_dashes-groups_of_five (f ∷ s) h)
without_dashes-groups_of_five [] h = refl
without_dashes-groups_of_five (a ∷ []) h = without_dashes-letters (a ∷ []) h
without_dashes-groups_of_five (a ∷ b ∷ []) h = without_dashes-letters (a ∷ b ∷ []) h
without_dashes-groups_of_five (a ∷ b ∷ c ∷ []) h = without_dashes-letters (a ∷ b ∷ c ∷ []) h
without_dashes-groups_of_five (a ∷ b ∷ c ∷ d ∷ []) h = without_dashes-letters (a ∷ b ∷ c ∷ d ∷ []) h
without_dashes-groups_of_five (a ∷ b ∷ c ∷ d ∷ e ∷ []) h =
    without_dashes-letters (a ∷ b ∷ c ∷ d ∷ e ∷ []) h

pub lower_case-IsLower : (s : Text) → All IsLower s → lower_case s ≡ s
unfolding lower_case IsLower
lower_case-IsLower [] h = refl
lower_case-IsLower (c ∷ s) h = cc (h.0, lower_case-IsLower s h.1)

word_bytes-IsByte : (w : ℕ) → All IsByte (word_bytes w)
unfolding word_bytes
word_bytes-IsByte w = (omega arith, (omega arith, (omega arith, (omega arith, tt))))

-- The text of some bytes, and its digits.
module _ (bytes : List ℕ) where
  unfoldable pub digits : Text
  digits = base32_encode (crc32_big_endian bytes ++ bytes)

  canonical_text-without_dashes : without_dashes (canonical_text bytes) ≡ digits
  unfolding canonical_text digits
  canonical_text-without_dashes = without_dashes-groups_of_five digits (base32_encode-IsLetter _)

  pub canonical_text-lower : lower_case (canonical_text bytes) ≡ canonical_text bytes
  unfolding canonical_text
  canonical_text-lower =
      let letters = base32_encode-IsLetter (crc32_big_endian bytes ++ bytes) in
      lower_case-IsLower _
        (All-groups_of_five IsLower _ (unfold IsLower in refl) (All-map letter-IsLower _ letters))

  pub canonical_text-decoded :
      All IsByte bytes
      → base32_decode (without_dashes (canonical_text bytes))
        ≡ some (crc32_big_endian bytes ++ bytes)
  unfolding digits crc32_big_endian
  canonical_text-decoded h =
      ap base32_decode canonical_text-without_dashes
      ∙ base32_decode-base32_encode _
          (All-append IsByte (crc32_big_endian bytes) bytes (word_bytes-IsByte (crc32 bytes)) h)

  pub canonical_text-size : 5 * length (canonical_text bytes) ≤ 16 * length bytes + 74
  unfolding canonical_text crc32_big_endian word_bytes
  canonical_text-size =
      let d = base32_encode (crc32_big_endian bytes ++ bytes) in
      let n = groups_of_five-size d in
      let m = base32_encode-size (crc32_big_endian bytes ++ bytes) in omega arith

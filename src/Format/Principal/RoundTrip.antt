-- ===== src/Format/Principal/RoundTrip.antt =====
-- `principalFromText` of principal.mjs against `principalToText`: which texts are read, and as what.
use candid_core.Common.{
  ℕ, ◌≤◌, Bool, true, false, not, List, ◌++◌, ◌≡◌, refl, sym, subst, ap, ◌∙◌, ◌↔◌, arith, ltb, All,
  All-drop, length, Option, none, some, take, drop, text_eq, text_eq_refl, text_eq→eq,
}
use candid_core.Format.Errors.{Code, ok, ◌>>=◌, >>=-eq-ok, >>-eq-ok, ok-injective}
use candid_core.Format.Chars.{Text}
use candid_core.Format.Util.{str, max_input_chars, IsByte}
use candid_core.Format.Principal.{
  max_principal_bytes, word_bytes, crc32_big_endian, lower_case, without_dashes, canonical_text,
  principal_to_text, check_decoded, principal_from_text,
}
use candid_core.Format.Principal.Crc.{crc32}
use candid_core.Format.Principal.Base32.{base32_decode}
use candid_core.Format.Principal.Base32.Alphabet.{base32_decode-IsByte}
use candid_core.Format.Principal.Canonical.{
  canonical_text-lower, canonical_text-decoded, canonical_text-size,
}

not-false : (b : Bool) → not b ≡ false → b ≡ true
not-false b h = ground arith

-- What the text of some bytes says of them.
pub principal_to_text-ok :
    (bytes : List ℕ) {t : Text}
    → principal_to_text bytes ≡ ok t
    → (length bytes ≤ 29) × (canonical_text bytes ≡ t)
unfolding principal_to_text
principal_to_text-ok bytes h =
    let (short, e) = >>-eq-ok (ltb max_principal_bytes (length bytes)) Code.principal _ h in
    (ground arith, ok-injective e)

pub ok-principal_to_text :
    (bytes : List ℕ) → length bytes ≤ 29 → principal_to_text bytes ≡ ok (canonical_text bytes)
unfolding principal_to_text
ok-principal_to_text bytes h =
    let e : ltb max_principal_bytes (length bytes) ≡ false = ground arith in rw e

-- What a decoded text that is accepted has to say.
check_decoded-ok :
    (lower : Text) (o : Option (List ℕ)) {bytes : List ℕ}
    → check_decoded lower o ≡ ok bytes
    → (decoded : List ℕ) × (o ≡ some decoded)
      × (drop 4 decoded ≡ bytes)
      × (principal_to_text bytes ≡ ok lower)
unfolding check_decoded
check_decoded-ok lower none h = cc
check_decoded-ok lower (some decoded) h =
    let (_, h1) = >>-eq-ok (ltb (length decoded) 4) Code.principal _ h in
    let (_, h2) =
      >>-eq-ok (ltb max_principal_bytes (length (drop 4 decoded))) Code.principal _ h1 in
    let (_, h3) =
      >>-eq-ok (not (text_eq (take 4 decoded) (crc32_big_endian (drop 4 decoded)))) Code.principal _
        h2 in
    let (canonical, told, h4) = >>=-eq-ok (principal_to_text (drop 4 decoded)) _ h3 in
    let (same, h5) = >>-eq-ok (not (text_eq lower canonical)) Code.principal _ h4 in
    let e = text_eq→eq lower canonical (not-false _ same) in
    (
      decoded,
      refl,
      ok-injective h5,
      ap principal_to_text (sym (ok-injective h5)) ∙ told ∙ ap ok (sym e),
    )

module _ (bytes : List ℕ) where
  accepts :
      (lower : Text)
      → length bytes ≤ 29
      → canonical_text bytes ≡ lower
      → check_decoded lower (some (crc32_big_endian bytes ++ bytes)) ≡ ok bytes
  unfolding check_decoded crc32_big_endian word_bytes
  accepts lower short e =
      let a : ltb max_principal_bytes (length bytes) ≡ false = ground arith in
      let long : ltb (length (word_bytes (crc32 bytes) ++ bytes)) 4 ≡ false = ground arith in
      let c = text_eq_refl (word_bytes (crc32 bytes)) in
      let d : text_eq lower (canonical_text bytes) ≡ true =
        ap (text_eq lower) e ∙ text_eq_refl lower in
      rw (long, a, c, d)

-- A text is read as some bytes exactly where it has at most 1024 characters, the bytes are bytes, and
-- their text is the one read in lower case: their number, their checksum and their dashes are in it.
pub principal_from_text_iff :
    (t : Text) (bytes : List ℕ)
    → (principal_from_text (str t) ≡ ok bytes)
      ↔ ((length t ≤ 1024) × All IsByte bytes × (principal_to_text bytes ≡ ok (lower_case t)))
unfolding principal_from_text
principal_from_text_iff t bytes = (
  (λ h.
      let (short, h') = >>-eq-ok (ltb max_input_chars (length t)) Code.too_long _ h in
      let (decoded, e, d, told) = check_decoded-ok (lower_case t) _ h' in
      (
        ground arith,
        subst (All IsByte) d (All-drop IsByte 4 decoded (base32_decode-IsByte _ e)),
        told,
      )),
  (λ (short, all_bytes, told).
      let (few, e) = principal_to_text-ok bytes told in
      let a : ltb max_input_chars (length t) ≡ false = ground arith in
      let decoded =
        ap (λ u. base32_decode (without_dashes u)) (sym e)
        ∙ canonical_text-decoded bytes all_bytes in
      rw (a, decoded) (accepts bytes (lower_case t) few e)),
)

-- At most 29 bytes are read back from their text.
pub principal_from_text-principal_to_text :
    (bytes : List ℕ)
    → All IsByte bytes
    → length bytes ≤ 29
    → (principal_to_text bytes >>= λ t. principal_from_text (str t)) ≡ ok bytes
principal_from_text-principal_to_text bytes h short =
    let n = canonical_text-size bytes in
    let told = ok-principal_to_text bytes short in
    rw told (
      (principal_from_text_iff (canonical_text bytes) bytes).1
        (omega arith, h, told ∙ ap ok (sym (canonical_text-lower bytes))))

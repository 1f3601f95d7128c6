-- ===== src/Format/Subaccount/RoundTrip.antt =====
-- `parseSubaccount` reads back what `displaySubaccount` writes, and what it reads is 32 bytes, of
-- profile/packages/format/src/subaccount.mjs.
use candid_core.Common.{
  ℕ, zero, suc, ◌+◌, ◌*◌, ◌/◌, ◌%◌, ◌^◌, ◌≤◌, ◌<◌, Bool, true, false, ◌&&◌, ◌||◌, List, [], ◌∷◌,
  ◌++◌, ◌≡◌, refl, sym, ap, ap₂, ◌∙◌, arith, ltb, leb, ◌==◌, ==_iff, if◌then◌else◌, length,
  length-drop, all, all-All, All, All-drop, All-map, take, drop, replicate, take-append-drop,
  Bool-cases, inl, inr, text_eq, length-take, All-all,
}
use candid_core.Format.Errors.{ok, ◌>>=◌}
use candid_core.Format.Chars.{Text, is_digit, is_space, IsSolid}
use candid_core.Format.Decimal.{
  nat_to_string, value-nat_to_string, nat_to_string-IsDigit, IsDigit, nat_to_string-leads, leads,
  nat_to_string-size,
}
use candid_core.Format.Util.{
  str, require_string, bytes_to_hex, is_hex, is_canonical_nat, IsByte, hex_to_bytes-bytes_to_hex,
  all-bytes_to_hex, length-bytes_to_hex,
}
use candid_core.Format.Blob.{view, to_bytes}
use candid_core.Format.Account.Parts.{trim-IsSolid}
use candid_core.Format.Account.HexText.{hex-IsSolid}
use candid_core.Format.Subaccount.{
  without_prefix, is_hex64, eight_bytes, big_endian_from, read_subaccount, parse_subaccount,
  display_subaccount,
}

-- Eight bytes, as a number and back.
abbrev IsEight : List ℕ → Type 0
IsEight bytes = (eight_bytes (big_endian_from 0 bytes) ≡ bytes) × (big_endian_from 0 bytes < 2 ^ 64)

module _ (a b c d e f g h : ℕ) where
  eight :
      a < 256
      → b < 256
      → c < 256
      → d < 256
      → e < 256
      → f < 256
      → g < 256
      → h < 256
      → IsEight (a ∷ b ∷ c ∷ d ∷ e ∷ f ∷ g ∷ h ∷ [])
  unfolding eight_bytes
  eight ha hb hc hd he hf hg hh =
      let n = ((((((a * 256 + b) * 256 + c) * 256 + d) * 256 + e) * 256 + f) * 256 + g) * 256 + h in
      let whole : big_endian_from 0 (a ∷ b ∷ c ∷ d ∷ e ∷ f ∷ g ∷ h ∷ []) ≡ n = omega arith in
      let qa : n / 2 ^ 56 % 256 ≡ a = omega arith in
      let qb : n / 2 ^ 48 % 256 ≡ b = omega arith in
      let qc : n / 2 ^ 40 % 256 ≡ c = omega arith in
      let qd : n / 2 ^ 32 % 256 ≡ d = omega arith in
      let qe : n / 2 ^ 24 % 256 ≡ e = omega arith in
      let qf : n / 2 ^ 16 % 256 ≡ f = omega arith in
      let qg : n / 2 ^ 8 % 256 ≡ g = omega arith in
      let qh : n % 256 ≡ h = omega arith in
      (rw (whole, qa, qb, qc, qd, qe, qf, qg, qh), omega arith)

IsEight-big_endian : (bytes : List ℕ) → All IsByte bytes → length bytes ≡ 8 → IsEight bytes
IsEight-big_endian (a ∷ b ∷ c ∷ d ∷ e ∷ f ∷ g ∷ h ∷ [])
      (ha, (hb, (hc, (hd, (he, (hf, (hg, (hh, _)))))))) n =
    eight a b c d e f g h ha hb hc hd he hf hg hh
IsEight-big_endian [] _ n = absurd (omega arith)
IsEight-big_endian (a ∷ []) _ n = absurd (omega arith)
IsEight-big_endian (a ∷ b ∷ []) _ n = absurd (omega arith)
IsEight-big_endian (a ∷ b ∷ c ∷ []) _ n = absurd (omega arith)
IsEight-big_endian (a ∷ b ∷ c ∷ d ∷ []) _ n = absurd (omega arith)
IsEight-big_endian (a ∷ b ∷ c ∷ d ∷ e ∷ []) _ n = absurd (omega arith)
IsEight-big_endian (a ∷ b ∷ c ∷ d ∷ e ∷ f ∷ []) _ n = absurd (omega arith)
IsEight-big_endian (a ∷ b ∷ c ∷ d ∷ e ∷ f ∷ g ∷ []) _ n = absurd (omega arith)
IsEight-big_endian (a ∷ b ∷ c ∷ d ∷ e ∷ f ∷ g ∷ h ∷ i ∷ rest) _ n = absurd (omega arith)

-- The decimal text of a number is a canonical one.
digit : (c : ℕ) → IsDigit c → is_digit c ≡ true
digit c h = let a = h.0 in let b = h.1 in ground arith

canonical_digits : (s : Text) → All IsDigit s → leads s ≡ true → is_canonical_nat s ≡ true
canonical_digits [] h l = cc
canonical_digits (c ∷ s) h l =
    rw (digit c h.0, All-all is_digit s (All-map digit s h.1), l)
      (or_true (c == b'0' && text_eq s []))
  where
    or_true : (b : Bool) → (b || true) ≡ true
    or_true true = refl
    or_true false = refl

nat_to_string-canonical : (n : ℕ) → is_canonical_nat (nat_to_string n) ≡ true
unfolding nat_to_string
nat_to_string-canonical zero = refl
nat_to_string-canonical (suc n) =
    canonical_digits _ (nat_to_string-IsDigit (suc n)) (nat_to_string-leads (suc n) (omega arith))

digit-IsSolid : (c : ℕ) → IsDigit c → IsSolid c
unfolding is_space
digit-IsSolid c h = let a = h.0 in let b = h.1 in ground arith

-- A text of solid characters is read as it is.
parse_subaccount-solid :
    (text : Text)
    → All IsSolid text
    → length text ≤ 1024
    → parse_subaccount (str text) ≡ read_subaccount text
unfolding parse_subaccount require_string
parse_subaccount-solid text solid short =
    let e : ltb 1024 (length text) ≡ false = ground arith in rw (e, trim-IsSolid text solid)

no_hex64 : (s : Text) → is_hex64 (without_prefix (b'#' ∷ s)) ≡ false
unfolding is_hex
no_hex64 [] = refl
no_hex64 (d ∷ s) = and_false (suc (suc (length s)) == 64)
  where
    and_false : (b : Bool) → (b && false) ≡ false
    and_false true = refl
    and_false false = refl

read_number :
    (n : ℕ)
    → n < 2 ^ 64
    → read_subaccount (b'#' ∷ nat_to_string n) ≡ ok (replicate 24 0 ++ eight_bytes n)
unfolding read_subaccount
read_number n h =
    let e : leb (2 ^ 64) n ≡ false = ground arith in
    rw (no_hex64 (nat_to_string n), nat_to_string-canonical n, value-nat_to_string n, e)

without_prefix-hex : (s : Text) → All (λ c. is_hex c ≡ true) s → without_prefix s ≡ s
unfolding is_hex
without_prefix-hex [] h = refl
without_prefix-hex (a ∷ []) h = refl
without_prefix-hex (a ∷ b ∷ s) (ha, (hb, h)) =
    let e : (b == b'x' || b == b'X') ≡ false = ground arith in rw e (never (a == b'0'))
  where
    never : (p : Bool) → (if p && false then s else a ∷ b ∷ s) ≡ a ∷ b ∷ s
    never true = refl
    never false = refl

read_hex :
    (bytes : List ℕ)
    → All IsByte bytes
    → length bytes ≡ 32
    → read_subaccount (bytes_to_hex bytes) ≡ ok bytes
unfolding read_subaccount
read_hex bytes h n =
    let digits = all-bytes_to_hex bytes h in
    let size : (length (bytes_to_hex bytes) == 64) ≡ true =
      ground (arith, length-bytes_to_hex bytes) in
    rw (
      without_prefix-hex (bytes_to_hex bytes) (all-All is_hex _ digits),
      size,
      digits,
      hex_to_bytes-bytes_to_hex bytes h,
    )

zeros : (bytes : List ℕ) → all (λ x. x == 0) bytes ≡ true → bytes ≡ replicate (length bytes) 0
zeros [] h = refl
zeros (b ∷ bytes) h =
    let (p, q) = all-All (λ x. x == 0) (b ∷ bytes) h in
    ap₂ (λ b s. b ∷ s) ((==_iff b 0).0 p) (zeros bytes (All-all (λ x. x == 0) bytes q))

-- 32 bytes are read back from their text.
pub parse_subaccount-display_subaccount :
    (bytes : List ℕ)
    → All IsByte bytes
    → length bytes ≡ 32
    → (display_subaccount (view bytes) >>= λ t. parse_subaccount (str t)) ≡ ok bytes
unfolding display_subaccount to_bytes
parse_subaccount-display_subaccount bytes h n =
    elim (Bool-cases (all (λ x. x == 0) (take 24 bytes))) [
      | inl front ↦
          let rest = drop 24 bytes in
          let l : length rest ≡ 8 = omega (arith, length-drop 24 bytes) in
          let (same, small) = IsEight-big_endian rest (All-drop IsByte 24 bytes h) l in
          let k : length (take 24 bytes) ≡ 24 = omega (arith, length-take 24 bytes) in
          let size = nat_to_string-size (big_endian_from 0 rest) 19 (omega arith) in
          rw (n, front)
            (parse_subaccount-solid _
                (unfold is_space in refl, All-map digit-IsSolid _ (nat_to_string-IsDigit _))
                (omega arith)
              ∙ read_number _ small
              ∙ ap ok (
                  ap₂ (λ a b. a ++ b)
                    (ap (λ k. replicate k 0) (sym k) ∙ sym (zeros (take 24 bytes) front)) same
                  ∙ take-append-drop 24 bytes))
      | inr other ↦
          let solid = All-map hex-IsSolid _ (all-All is_hex _ (all-bytes_to_hex bytes h)) in
          rw (n, other)
            (parse_subaccount-solid (bytes_to_hex bytes) solid
                (omega (arith, length-bytes_to_hex bytes))
              ∙ read_hex bytes h n)
    ]

-- ===== src/Format/Subaccount/Size.antt =====
-- What `parseSubaccount` of profile/packages/format/src/subaccount.mjs gives is always 32 bytes.
use candid_core.Common.{
  ℕ, zero, suc, ◌*◌, ◌%◌, ◌^◌, ◌<◌, Bool, true, false, ◌&&◌, List, [], ◌∷◌, ◌≡◌, refl, sym, subst,
  ap, ◌∙◌, arith, leb, ◌==◌, length, all, all-All, All, All-append, replicate, Bool-cases, inl, inr,
  ==_iff,
}
use candid_core.Format.Errors.{Code, ok, >>=-eq-ok, >>-eq-ok, ok-injective}
use candid_core.Format.Chars.{Text, trim}
use candid_core.Format.Decimal.{value}
use candid_core.Format.Util.{
  Value, require_string, is_hex, hex_value, read_pairs, hex_to_bytes, is_canonical_nat, IsByte,
}
use candid_core.Format.Subaccount.{
  without_prefix, without_hash, is_hex64, is_hexish, has_leading_zeros, eight_bytes, from_number,
  from_hex, read_subaccount, parse_subaccount,
}

hex_value-below : (c : ℕ) → is_hex c ≡ true → hex_value c < 16
unfolding is_hex hex_value
hex_value-below c h = ground arith

-- Half as many bytes as digits.
read_pairs-size : (s : Text) → length s % 2 ≡ 0 → length (read_pairs s) * 2 ≡ length s
unfolding read_pairs
read_pairs-size [] h = refl
read_pairs-size (c ∷ []) h = absurd (omega arith)
read_pairs-size (c ∷ d ∷ s) h =
    let shorter : length s % 2 ≡ 0 = omega arith in omega (arith, read_pairs-size s shorter)

read_pairs-IsByte : (s : Text) → All (λ c. is_hex c ≡ true) s → All IsByte (read_pairs s)
unfolding read_pairs
read_pairs-IsByte [] h = tt
read_pairs-IsByte (c ∷ []) h = tt
read_pairs-IsByte (c ∷ d ∷ s) (hc, (hd, h)) =
    (omega (arith, hex_value-below c hc, hex_value-below d hd), read_pairs-IsByte s h)

abbrev IsSubaccount : List ℕ → Type 0
IsSubaccount bytes = (length bytes ≡ 32) × All IsByte bytes

both : (a b : Bool) → (a && b) ≡ true → (a ≡ true) × (b ≡ true)
both true b h = (refl, h)
both false b h = cc

hex64-IsSubaccount :
    (s : Text) {bytes : List ℕ}
    → is_hex64 s ≡ true
    → from_hex (hex_to_bytes s) ≡ ok bytes
    → IsSubaccount bytes
unfolding hex_to_bytes
hex64-IsSubaccount s {bytes} h e =
    let (sized, digits) = both (length s == 64) (all is_hex s) h in
    let size : length s ≡ 64 = (==_iff (length s) 64).0 sized in
    let even' : length s % 2 ≡ 0 = omega (arith, size) in
    let even : (length s % 2 == 0) ≡ true = (==_iff (length s % 2) 0).1 even' in
    let same : read_pairs s ≡ bytes = ok-injective (rw (even, digits) at e) in
    let half = read_pairs-size s even' in
    (
      ap length (sym same) ∙ omega arith,
      subst (All IsByte) same (read_pairs-IsByte s (all-All is_hex s digits)),
    )

zeros-IsByte : (n : ℕ) → All IsByte (replicate n 0)
zeros-IsByte zero = tt
zeros-IsByte (suc n) = (omega arith, zeros-IsByte n)

number-IsSubaccount : (n : ℕ) {bytes : List ℕ} → from_number n ≡ ok bytes → IsSubaccount bytes
unfolding from_number
number-IsSubaccount n {bytes} e =
    let (_, r) = >>-eq-ok (leb (2 ^ 64) n) Code.range _ e in
    let eight : All IsByte (eight_bytes n) =
      unfold eight_bytes in
      (
        omega arith,
        (
          omega arith,
          (
            omega arith,
            (omega arith, (omega arith, (omega arith, (omega arith, (omega arith, tt))))),
          ),
        ),
      ) in
    subst IsSubaccount (ok-injective r) (
      unfold eight_bytes in refl,
      All-append IsByte (replicate 24 0) (eight_bytes n) (zeros-IsByte 24) eight,
    )

read-IsSubaccount :
    (text : Text) {bytes : List ℕ} → read_subaccount text ≡ ok bytes → IsSubaccount bytes
unfolding read_subaccount
read-IsSubaccount text e = elim (Bool-cases (is_hex64 (without_prefix text))) [
  | inl hex ↦ hex64-IsSubaccount (without_prefix text) hex (rw hex at e)
  | inr no_hex ↦ elim (Bool-cases (is_canonical_nat (without_hash text))) [
    | inl number ↦ number-IsSubaccount (value (without_hash text)) (rw (no_hex, number) at e)
    | inr no_number ↦ elim (Bool-cases (has_leading_zeros (without_hash text))) [
      | inl zeros ↦ let g = rw (no_hex, no_number, zeros) at e in cc
      | inr no_zeros ↦ elim (Bool-cases (is_hexish (without_prefix text))) [
        | inl hexish ↦ let g = rw (no_hex, no_number, no_zeros, hexish) at e in cc
        | inr no_hexish ↦ let g = rw (no_hex, no_number, no_zeros, no_hexish) at e in cc
      ]
    ]
  ]
]

-- Whatever input is read, in either form, the result has 32 elements, each of which is a byte.
pub parse_subaccount-IsSubaccount :
    (input : Value) {bytes : List ℕ}
    → parse_subaccount input ≡ ok bytes
    → (length bytes ≡ 32) × All IsByte bytes
unfolding parse_subaccount
parse_subaccount-IsSubaccount input e =
    let (s, _, h) = >>=-eq-ok (require_string input) _ e in read-IsSubaccount (trim s) h

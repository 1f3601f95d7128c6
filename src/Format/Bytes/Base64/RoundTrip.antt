-- ===== src/Format/Bytes/Base64/RoundTrip.antt =====
-- Bytes survive base64.
use candid_core.Common.{
  ℕ, ◌+◌, ◌-◌, ◌*◌, ◌/◌, ◌%◌, ◌<◌, true, false, not, ◌&&◌, ◌||◌, List, [], ◌∷◌, ◌++◌, append_assoc,
  append-nil, ◌≡◌, refl, sym, subst, ap, ◌∙◌, arith, ltb, leb, ◌==◌, length, all, All, Stops,
  take_while-append, drop_while-append, inl, inr,
}
use candid_core.Format.Errors.{ok}
use candid_core.Format.Chars.{Text}
use candid_core.Format.Util.{IsByte}
use candid_core.Format.Bytes.Base64.{
  b64_char, is_b64, base64_encode, Bits, round, decode_body, start, decode_parts, base64_decode,
}
use candid_core.Format.Bytes.Base64.Digits.{
  Matches, b64_value-b64_char, digits, digits-IsB64, encode-parts, padding, padding-Matches,
  padding-Stops, round_first, round_fourth, round_second, round_third,
}

-- A digit of the alphabet is one round.
decode_body-digit :
    (i : ℕ) (body : Text) (s : Bits)
    → i < 64
    → decode_body (b64_char i ∷ body) s ≡ decode_body body (round i s)
unfolding decode_body
decode_body-digit i body s h = ap (λ v. decode_body body (round v s)) (b64_value-b64_char i h)

-- The four rounds of a group on its digits: each gives a byte as soon as it is there.
step_first :
    (a : ℕ) (body : Text) (out : List ℕ)
    → a < 256
    → decode_body (b64_char (a / 4) ∷ body) (record { acc = 0; bits = 0; out = out })
      ≡ decode_body body (record { acc = a / 4; bits = 6; out = out })
step_first a body out h =
    decode_body-digit (a / 4) body _ (omega arith)
    ∙ ap (decode_body body) (round_first (a / 4) out (omega arith))

step_second :
    (a b : ℕ) (body : Text) (out : List ℕ)
    → a < 256
    → b < 16
    → decode_body (b64_char (a % 4 * 16 + b) ∷ body) (record { acc = a / 4; bits = 6; out = out })
      ≡ decode_body body (record { acc = b; bits = 4; out = out ++ a ∷ [] })
step_second a b body out ha hb =
    let e : (a % 4 * 16 + b) % 16 ≡ b = omega arith in
    let f : a / 4 * 4 + (a % 4 * 16 + b) / 16 ≡ a = omega arith in
    decode_body-digit (a % 4 * 16 + b) body _ (omega arith)
    ∙ ap (decode_body body)
        (round_second (a / 4) (a % 4 * 16 + b) out (omega arith) (omega arith) ∙ rw (e, f))

step_third :
    (b c : ℕ) (body : Text) (out : List ℕ)
    → b < 256
    → c < 4
    → decode_body (b64_char (b % 16 * 4 + c) ∷ body) (record { acc = b / 16; bits = 4; out = out })
      ≡ decode_body body (record { acc = c; bits = 2; out = out ++ b ∷ [] })
step_third b c body out hb hc =
    let e : (b % 16 * 4 + c) % 4 ≡ c = omega arith in
    let f : b / 16 * 16 + (b % 16 * 4 + c) / 4 ≡ b = omega arith in
    decode_body-digit (b % 16 * 4 + c) body _ (omega arith)
    ∙ ap (decode_body body)
        (round_third (b / 16) (b % 16 * 4 + c) out (omega arith) (omega arith) ∙ rw (e, f))

step_fourth :
    (c : ℕ) (body : Text) (out : List ℕ)
    → c < 256
    → decode_body (b64_char (c % 64) ∷ body) (record { acc = c / 64; bits = 2; out = out })
      ≡ decode_body body (record { acc = 0; bits = 0; out = out ++ c ∷ [] })
step_fourth c body out hc =
    let f : c / 64 * 64 + c % 64 ≡ c = omega arith in
    decode_body-digit (c % 64) body _ (omega arith)
    ∙ ap (decode_body body) (round_fourth (c / 64) (c % 64) out (omega arith) (omega arith) ∙ rw f)

-- A whole group leaves no bit over.
decode_body-group :
    (a b c : ℕ) (body : Text) (out : List ℕ)
    → a < 256
    → b < 256
    → c < 256
    → decode_body
        (b64_char (a / 4)
          ∷ b64_char (a % 4 * 16 + b / 16)
          ∷ b64_char (b % 16 * 4 + c / 64)
          ∷ b64_char (c % 64)
          ∷ body)
        (record { acc = 0; bits = 0; out = out })
      ≡ decode_body body (record { acc = 0; bits = 0; out = ((out ++ a ∷ []) ++ b ∷ []) ++ c ∷ [] })
decode_body-group a b c body out ha hb hc =
    step_first a _ out ha
    ∙ step_second a (b / 16) _ out ha (omega arith)
    ∙ step_third b (c / 64) _ (out ++ a ∷ []) hb (omega arith)
    ∙ step_fourth c body _ hc

-- The loop over the digits gives the bytes, and no bit is left over.
abbrev IsDone : Bits → List ℕ → Type 0
IsDone s out = (s.acc ≡ 0) × (s.out ≡ out)

IsDone-subst : {s t : Bits} (out : List ℕ) → s ≡ t → IsDone t out → IsDone s out
IsDone-subst out e h = subst (λ s. IsDone s out) (sym e) h

decode_body-nil : (s : Bits) → decode_body [] s ≡ s
unfolding decode_body
decode_body-nil s = refl

decode_body-digits :
    (bs out : List ℕ)
    → All IsByte bs
    → IsDone (decode_body (digits bs) (record { acc = 0; bits = 0; out = out })) (out ++ bs)
unfolding digits
decode_body-digits [] out h = IsDone-subst _ (decode_body-nil _) (refl, rw append-nil)
decode_body-digits (a ∷ []) out (ha, _) =
    let e : a % 4 * 16 + 0 ≡ a % 4 * 16 = omega arith in
    IsDone-subst _
      (step_first a _ out ha
        ∙ rw e at (step_second a 0 [] out ha (omega arith))
        ∙ decode_body-nil _)
      (refl, refl)
decode_body-digits (a ∷ b ∷ []) out (ha, (hb, _)) =
    let e : b % 16 * 4 + 0 ≡ b % 16 * 4 = omega arith in
    IsDone-subst _
      (step_first a _ out ha
        ∙ step_second a (b / 16) _ out ha (omega arith)
        ∙ rw e at (step_third b 0 [] (out ++ a ∷ []) hb (omega arith))
        ∙ decode_body-nil _)
      (refl, append_assoc out (a ∷ []) (b ∷ []))
decode_body-digits (a ∷ b ∷ c ∷ bs) out (ha, (hb, (hc, h))) =
    let rest = decode_body-digits bs (((out ++ a ∷ []) ++ b ∷ []) ++ c ∷ []) h in
    IsDone-subst _ (decode_body-group a b c (digits bs) out ha hb hc)
      (rest.0, rest.1 ∙ simp append_assoc)

-- The tests of the decoder pass on digits with their padding.
module _ (pad : Text) (n : ℕ) where
  length_test : Matches pad n → (n % 4 == 1) ≡ false
  length_test m = ground arith

  shape_test : Matches pad n → (not (all (λ c. c == b'=') pad) || ltb 2 (length pad)) ≡ false
  shape_test (inl (p, e)) = rw p
  shape_test (inr (inl (p, e))) = rw p
  shape_test (inr (inr (p, e))) = rw p

  pad_test :
      Matches pad n → (leb 1 (length pad) && (n % 4 == 0 || not (length pad == 4 - n % 4))) ≡ false
  pad_test (inl (p, e)) = rw p
  pad_test (inr (inl (p, e))) = rw (p, e)
  pad_test (inr (inr (p, e))) = rw (p, e)

decode_parts-ok :
    (body pad : Text) (bs : List ℕ)
    → Matches pad (length body)
    → IsDone (decode_body body start) bs
    → decode_parts body pad ≡ ok bs
unfolding decode_parts
decode_parts-ok body pad bs m (left, out) = rw (
  shape_test pad (length body) m,
  length_test pad (length body) m,
  pad_test pad (length body) m,
  left,
  out,
)

base64_decode-parts :
    (body pad : Text) (bs : List ℕ)
    → All (λ c. is_b64 c ≡ true) body
    → Stops is_b64 pad
    → Matches pad (length body)
    → IsDone (decode_body body start) bs
    → base64_decode (body ++ pad) ≡ ok bs
unfolding base64_decode
base64_decode-parts body pad bs hb hp m done =
    rw (take_while-append is_b64 body pad hb hp, drop_while-append is_b64 body pad hb hp)
      (decode_parts-ok body pad bs m done)

-- The text of bytes is read back as them, for bytes of any number.
pub base64_decode-base64_encode :
    (bs : List ℕ) → All IsByte bs → base64_decode (base64_encode bs) ≡ ok bs
base64_decode-base64_encode bs h = rw (encode-parts bs h) (
    base64_decode-parts (digits bs) (padding bs) bs (digits-IsB64 bs h) (padding-Stops bs)
      (padding-Matches bs) (decode_body-digits bs [] h))

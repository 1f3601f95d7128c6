-- ===== src/Format/Principal/Base32/RoundTrip.antt =====
-- base32 of principal.mjs: what is encoded is decoded, and is made of the alphabet's characters.
use candid_core.Common.{
  ℕ, ◌+◌, ◌*◌, ◌%◌, ◌<◌, List, [], ◌∷◌, ◌++◌, ◌≡◌, refl, sym, ap, ap₂, ◌∙◌, arith, All, some,
}
use candid_core.Common.Bits.{bit_and_mask}
use candid_core.Format.Chars.{Text}
use candid_core.Format.Util.{IsByte}
use candid_core.Format.Principal.Base32.{
  b32_char, Bits, encode_loop, encode_end, start, base32_encode, decode_digit, decode_loop,
  decode_end, base32_decode,
}
use candid_core.Format.Principal.Base32.Digits.{give_four, give_five, give_six, give_seven}
use candid_core.Format.Principal.Base32.Follows.{
  state, Linked, at_zero, at_one, at_two, at_three, at_four, one_more, run_at, encode_loop-Follows,
}

-- The digit that the bits left over make up, at each number of them.
module _ (a : ℕ) (t : Text) where
  end_one : a < 2 → encode_end (state a 1 t) ≡ t ++ b32_char (a * 16) ∷ []
  end_one h = let e : a * 16 % 32 ≡ a * 16 = omega arith in rw (bit_and_mask 5 (a * 16), e)

  end_two : a < 4 → encode_end (state a 2 t) ≡ t ++ b32_char (a * 8) ∷ []
  end_two h = let e : a * 8 % 32 ≡ a * 8 = omega arith in rw (bit_and_mask 5 (a * 8), e)

  end_three : a < 8 → encode_end (state a 3 t) ≡ t ++ b32_char (a * 4) ∷ []
  end_three h = let e : a * 4 % 32 ≡ a * 4 = omega arith in rw (bit_and_mask 5 (a * 4), e)

  end_four : a < 16 → encode_end (state a 4 t) ≡ t ++ b32_char (a * 2) ∷ []
  end_four h = let e : a * 2 % 32 ≡ a * 2 = omega arith in rw (bit_and_mask 5 (a * 2), e)

-- The decoder's verdict where its last digit completes the last byte.
complete :
    {t' : Text} {d : Bits} (t : Text) (i : ℕ) (bs o : List ℕ) (x : ℕ) (k : ℕ)
    → decode_loop t start ≡ some d
    → i < 32
    → t' ≡ t ++ b32_char i ∷ []
    → decode_digit i d ≡ state 0 k (o ++ x ∷ [])
    → k < 5
    → bs ≡ o ++ x ∷ []
    → decode_end (decode_loop t' start) ≡ some bs
complete {t'} t i bs o x k r h te de hk be =
    ap (λ u. decode_end (decode_loop u start)) te
    ∙ ap decode_end (one_more t r i h de)
    ∙ within k hk
    ∙ ap some (sym be)
  where
    within : (k : ℕ) → k < 5 → decode_end (some (state 0 k (o ++ x ∷ []))) ≡ some (o ++ x ∷ [])
    within k h = ground arith

spare :
    (v n k : ℕ) (o : List ℕ) (x y : ℕ)
    → v % n ≡ 0
    → x ≡ y
    → state (v % n) k (o ++ x ∷ []) ≡ state 0 k (o ++ y ∷ [])
spare v n k o x y e f = ap₂ (λ a z. state a k (o ++ z ∷ [])) e f

encode_end-decodes :
    (bs : List ℕ) (e d : Bits)
    → decode_loop e.out start ≡ some d
    → Linked bs e d
    → decode_end (decode_loop (encode_end e) start) ≡ some bs
encode_end-decodes bs e d r (at_zero t ee de) =
    ap (λ e. decode_end (decode_loop (encode_end e) start)) ee ∙ ap decode_end (run_at t ee de r)
encode_end-decodes bs e d r (at_one t a p o ha hp ee de be) =
    complete t (a * 16) bs o (p * 2 + a) 4 (run_at t ee de r) (omega arith)
      (ap encode_end ee ∙ end_one a t ha)
      (give_seven p (a * 16) o (omega arith) hp
        ∙ spare (a * 16) 16 4 o _ _ (omega arith) (omega arith))
      (omega arith) be
encode_end-decodes bs e d r (at_two t a p o ha hp ee de be) =
    complete t (a * 8) bs o (p * 4 + a) 3 (run_at t ee de r) (omega arith)
      (ap encode_end ee ∙ end_two a t ha)
      (give_six p (a * 8) o (omega arith) hp ∙ spare (a * 8) 8 3 o _ _ (omega arith) (omega arith))
      (omega arith) be
encode_end-decodes bs e d r (at_three t a p o ha hp ee de be) =
    complete t (a * 4) bs o (p * 8 + a) 2 (run_at t ee de r) (omega arith)
      (ap encode_end ee ∙ end_three a t ha)
      (give_five p (a * 4) o (omega arith) hp ∙ spare (a * 4) 4 2 o _ _ (omega arith) (omega arith))
      (omega arith) be
encode_end-decodes bs e d r (at_four t a p o ha hp ee de be) =
    complete t (a * 2) bs o (p * 16 + a) 1 (run_at t ee de r) (omega arith)
      (ap encode_end ee ∙ end_four a t ha)
      (give_four p (a * 2) o (omega arith) hp ∙ spare (a * 2) 2 1 o _ _ (omega arith) (omega arith))
      (omega arith) be

-- Every byte string is read back from its base32 text.
pub base32_decode-base32_encode :
    (bytes : List ℕ) → All IsByte bytes → base32_decode (base32_encode bytes) ≡ some bytes
unfolding base32_decode base32_encode
base32_decode-base32_encode bytes h =
    let (d, r, l) = encode_loop-Follows bytes [] start h (start, refl, at_zero [] refl refl) in
    encode_end-decodes bytes (encode_loop bytes start) d r l

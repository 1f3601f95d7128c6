-- ===== src/Format/Bytes/Base64/Digits.antt =====
-- base64 of profile/packages/format/src/bytes.mjs: the rounds as arithmetic, and the digits and padding of
-- a text.
use Prim.Native.Nat.{bit_and, bit_or}
use candid_core.Common.{
  ℕ, ◌+◌, ◌*◌, ◌/◌, ◌%◌, ◌<◌, true, List, [], ◌∷◌, ◌++◌, ◌≡◌, refl, ap, ◌∙◌, arith, ◌==◌, ==_iff,
  length, All, Stops, ◌⊎◌, inl, inr,
}
use candid_core.Common.Bits.{bit_and_mask, bit_or_fields, shr, shl}
use candid_core.Common.Tables.{all_below, all_below_sound}
use candid_core.Format.Chars.{Text}
use candid_core.Format.Util.{IsByte}
use candid_core.Format.Bytes.Base64.{b64_char, b64_value, is_b64, group, base64_encode, round}

pub b64_value-b64_char : (i : ℕ) → i < 64 → b64_value (b64_char i) ≡ i
b64_value-b64_char i h = (==_iff (b64_value (b64_char i)) i).0 (
    all_below_sound 64 (λ i. b64_value (b64_char i) == i) i
      (unfold b64_char b64_value all_below in refl) h)

pub is_b64-b64_char : (i : ℕ) → i < 64 → is_b64 (b64_char i) ≡ true
is_b64-b64_char i h =
    all_below_sound 64 (λ i. is_b64 (b64_char i)) i (unfold b64_char is_b64 all_below in refl) h

pub or_six : (a v : ℕ) → v < 64 → bit_or (shl a 6) v ≡ a * 64 + v
or_six a v h = bit_or_fields 6 a v h

-- The three bytes of a group as one number.
pub group_sum : (a b c : ℕ) → b < 256 → c < 256 → group a b c ≡ a * 65536 + b * 256 + c
group_sum a b c hb hc =
    let high : bit_or (shl a 16) (shl b 8) ≡ (a * 256 + b) * 256 =
      bit_or_fields 16 a (b * 256) (omega arith) ∙ omega arith in
    rw high (bit_or_fields 8 (a * 256 + b) c hc ∙ omega arith)

-- The first digit of a group waits.
pub round_first :
    (p : ℕ) (out : List ℕ)
    → p < 64
    → round p (record { acc = 0; bits = 0; out = out }) ≡ record { acc = p; bits = 6; out = out }
round_first p out h =
    let e : bit_and (bit_or (shl 0 6) p) 63 ≡ p =
      bit_and_mask 6 _ ∙ ap (λ (t : ℕ). t % 64) (or_six 0 p h) ∙ omega arith in
    rw e

pub round_second :
    (p q : ℕ) (out : List ℕ)
    → p < 64
    → q < 64
    → round q (record { acc = p; bits = 6; out = out })
      ≡ record { acc = q % 16; bits = 4; out = out ++ (p * 4 + q / 16) ∷ [] }
round_second p q out hp h =
    let e : (p * 64 + q) % 16 ≡ q % 16 = omega arith in
    let f : (p * 64 + q) / 16 % 256 ≡ p * 4 + q / 16 = omega arith in
    rw (or_six p q h, bit_and_mask 4 (p * 64 + q), bit_and_mask 8 ((p * 64 + q) / 16), e, f)

pub round_third :
    (q r : ℕ) (out : List ℕ)
    → q < 16
    → r < 64
    → round r (record { acc = q; bits = 4; out = out })
      ≡ record { acc = r % 4; bits = 2; out = out ++ (q * 16 + r / 4) ∷ [] }
round_third q r out hq h =
    let e : (q * 64 + r) % 4 ≡ r % 4 = omega arith in
    let f : (q * 64 + r) / 4 % 256 ≡ q * 16 + r / 4 = omega arith in
    rw (or_six q r h, bit_and_mask 2 (q * 64 + r), bit_and_mask 8 ((q * 64 + r) / 4), e, f)

pub round_fourth :
    (r s : ℕ) (out : List ℕ)
    → r < 4
    → s < 64
    → round s (record { acc = r; bits = 2; out = out })
      ≡ record { acc = 0; bits = 0; out = out ++ (r * 64 + s) ∷ [] }
round_fourth r s out hr h =
    let e : (r * 64 + s) % 1 ≡ 0 = omega arith in
    let f : (r * 64 + s) / 1 % 256 ≡ r * 64 + s = omega arith in
    rw (or_six r s h, bit_and_mask 0 (r * 64 + s), bit_and_mask 8 ((r * 64 + s) / 1), e, f)

-- The digits of the bytes, and the padding, apart.
unfoldable pub digits : List ℕ → Text
digits [] = []
digits (a ∷ []) = b64_char (a / 4) ∷ b64_char (a % 4 * 16) ∷ []
digits (a ∷ b ∷ []) = b64_char (a / 4) ∷ b64_char (a % 4 * 16 + b / 16) ∷ b64_char (b % 16 * 4) ∷ []
digits (a ∷ b ∷ c ∷ bytes) =
    b64_char (a / 4)
    ∷ b64_char (a % 4 * 16 + b / 16)
    ∷ b64_char (b % 16 * 4 + c / 64)
    ∷ b64_char (c % 64)
    ∷ digits bytes

unfoldable pub padding : List ℕ → Text
padding [] = []
padding (a ∷ []) = b'=' ∷ b'=' ∷ []
padding (a ∷ b ∷ []) = b'=' ∷ []
padding (a ∷ b ∷ c ∷ bytes) = padding bytes

-- The four digits of a group.
pub group_digits :
    (a b c : ℕ)
    → a < 256
    → b < 256
    → c < 256
    → (bit_and (shr (group a b c) 18) 63 ≡ a / 4)
      × (bit_and (shr (group a b c) 12) 63 ≡ a % 4 * 16 + b / 16)
      × (bit_and (shr (group a b c) 6) 63 ≡ b % 16 * 4 + c / 64)
      × (bit_and (group a b c) 63 ≡ c % 64)
group_digits a b c ha hb hc = rw (group_sum a b c hb hc) (
  bit_and_mask 6 _ ∙ omega arith,
  bit_and_mask 6 _ ∙ omega arith,
  bit_and_mask 6 _ ∙ omega arith,
  bit_and_mask 6 _ ∙ omega arith,
)

pub encode-parts : (bs : List ℕ) → All IsByte bs → base64_encode bs ≡ digits bs ++ padding bs
unfolding base64_encode digits padding
encode-parts [] h = refl
encode-parts (a ∷ []) h =
    let g = group_digits a 0 0 h.0 (omega arith) (omega arith) in
    let e : a % 4 * 16 + 0 ≡ a % 4 * 16 = omega arith in rw (g.0, g.1, e)
encode-parts (a ∷ b ∷ []) h =
    let g = group_digits a b 0 h.0 h.1.0 (omega arith) in
    let e : b % 16 * 4 + 0 ≡ b % 16 * 4 = omega arith in rw (g.0, g.1, g.2, e)
encode-parts (a ∷ b ∷ c ∷ bs) h =
    let g = group_digits a b c h.0 h.1.0 h.1.1.0 in rw (g.0, g.1, g.2, g.3, encode-parts bs h.1.1.1)

pub digit_IsB64 : {i : ℕ} → i < 64 → is_b64 (b64_char i) ≡ true
digit_IsB64 {i} h = is_b64-b64_char i h

pub digits-IsB64 : (bs : List ℕ) → All IsByte bs → All (λ c. is_b64 c ≡ true) (digits bs)
unfolding digits
digits-IsB64 [] h = tt
digits-IsB64 (a ∷ []) (ha, _) = (digit_IsB64 (omega arith), (digit_IsB64 (omega arith), tt))
digits-IsB64 (a ∷ b ∷ []) (ha, (hb, _)) =
    (digit_IsB64 (omega arith), (digit_IsB64 (omega arith), (digit_IsB64 (omega arith), tt)))
digits-IsB64 (a ∷ b ∷ c ∷ bs) (ha, (hb, (hc, h))) = (
  digit_IsB64 (omega arith),
  (
    digit_IsB64 (omega arith),
    (digit_IsB64 (omega arith), (digit_IsB64 (omega arith), digits-IsB64 bs h)),
  ),
)

pub padding-Stops : (bs : List ℕ) → Stops is_b64 (padding bs)
unfolding padding is_b64
padding-Stops [] = tt
padding-Stops (a ∷ []) = refl
padding-Stops (a ∷ b ∷ []) = refl
padding-Stops (a ∷ b ∷ c ∷ bs) = padding-Stops bs

-- The padding that goes with each length of the digits.
abbrev pub Matches : Text → ℕ → Type 0
Matches pad n =
    ((pad ≡ []) × (n % 4 ≡ 0))
    ⊎ ((pad ≡ b'=' ∷ []) × (n % 4 ≡ 3))
    ⊎ ((pad ≡ b'=' ∷ b'=' ∷ []) × (n % 4 ≡ 2))

pub padding-Matches : (bs : List ℕ) → Matches (padding bs) (length (digits bs))
unfolding padding digits
padding-Matches [] = inl (refl, refl)
padding-Matches (a ∷ []) = inr (inr (refl, refl))
padding-Matches (a ∷ b ∷ []) = inr (inl (refl, refl))
padding-Matches (a ∷ b ∷ c ∷ bs) = elim (padding-Matches bs) [
  | inl (p, e) ↦ inl (p, omega arith)
  | inr (inl (p, e)) ↦ inr (inl (p, omega arith))
  | inr (inr (p, e)) ↦ inr (inr (p, omega arith))
]

-- ===== src/Format/Principal/Base32/Follows.antt =====
-- base32 of principal.mjs: the decoder follows the encoder digit by digit.
use candid_core.Common.{
  ℕ, ◌+◌, ◌*◌, ◌/◌, ◌%◌, ◌<◌, List, [], ◌∷◌, ◌++◌, append_assoc, append-nil, ◌≡◌, refl, sym, subst,
  ap, ap₂, ◌∙◌, arith, All, some, Option-cases, inl, inr,
}
use mathlib.Core.Option.{some-injective, none-ne-some}
use candid_core.Format.Chars.{Text}
use candid_core.Format.Util.{IsByte}
use candid_core.Format.Principal.Base32.{
  b32_char, b32_value, Bits, encode_byte, encode_loop, start, decode_digit, decode_loop,
}
use candid_core.Format.Principal.Base32.Digits.{
  b32_value-b32_char, wait_zero, wait_one, wait_two, give_three, give_four, give_five, give_six,
  give_seven, byte_zero, byte_one, byte_two, byte_three, byte_four,
}

abbrev pub state : ℕ → ℕ → List ℕ → Bits
state acc bits out = record { acc = acc; bits = bits; out = out }

-- The encoder `e` has taken the bytes `bs`; the decoder `d` has taken the encoder's digits. A byte that
-- is not yet complete is split between the bits that wait in each.
pub data Linked (bs : List ℕ) (e d : Bits) : Type 0 where
  at_zero : (t : Text) → e ≡ state 0 0 t → d ≡ state 0 0 bs → Linked bs e d
  at_one :
      (t : Text) (a p : ℕ) (o : List ℕ)
      → a < 2
      → p < 128
      → e ≡ state a 1 t
      → d ≡ state p 7 o
      → bs ≡ o ++ (p * 2 + a) ∷ []
      → Linked bs e d
  at_two :
      (t : Text) (a p : ℕ) (o : List ℕ)
      → a < 4
      → p < 64
      → e ≡ state a 2 t
      → d ≡ state p 6 o
      → bs ≡ o ++ (p * 4 + a) ∷ []
      → Linked bs e d
  at_three :
      (t : Text) (a p : ℕ) (o : List ℕ)
      → a < 8
      → p < 32
      → e ≡ state a 3 t
      → d ≡ state p 5 o
      → bs ≡ o ++ (p * 8 + a) ∷ []
      → Linked bs e d
  at_four :
      (t : Text) (a p : ℕ) (o : List ℕ)
      → a < 16
      → p < 16
      → e ≡ state a 4 t
      → d ≡ state p 4 o
      → bs ≡ o ++ (p * 16 + a) ∷ []
      → Linked bs e d

-- The decoder reads the encoder's text, and stands where `Linked` says.
abbrev pub Follows : List ℕ → Bits → Type 0
Follows bs e = (d : Bits) × (decode_loop e.out start ≡ some d) × Linked bs e d

decode_loop-digit :
    (t : Text) (i : ℕ) (s d : Bits)
    → i < 32
    → decode_loop t s ≡ some d
    → decode_loop (t ++ b32_char i ∷ []) s ≡ some (decode_digit i d)
unfolding decode_loop
decode_loop-digit [] i s d h e =
    rw (b32_value-b32_char i h, decode_loop)
      (ap (λ o. some (decode_digit i o)) (some-injective s d e))
decode_loop-digit (c ∷ t) i s d h e = elim (Option-cases (b32_value c)) [
  | inl missing ↦ absurd (none-ne-some d (rw (missing, decode_loop) at e))
  | inr (v, found) ↦
      rw (found, decode_loop)
        (decode_loop-digit t i (decode_digit v s) d h (rw (found, decode_loop) at e))
]

-- One digit more, and two.
module _ (t : Text) {d : Bits} (run : decode_loop t start ≡ some d) where
  pub one_more :
      (i : ℕ) {d' : Bits}
      → i < 32
      → decode_digit i d ≡ d'
      → decode_loop (t ++ b32_char i ∷ []) start ≡ some d'
  one_more i h e = decode_loop-digit t i start d h run ∙ ap some e

  two_more :
      (i j : ℕ) {d' d'' : Bits}
      → i < 32
      → j < 32
      → decode_digit i d ≡ d'
      → decode_digit j d' ≡ d''
      → decode_loop ((t ++ b32_char i ∷ []) ++ b32_char j ∷ []) start ≡ some d''
  two_more i j hi hj e f =
      decode_loop-digit (t ++ b32_char i ∷ []) j start _ hj (one_more i hi e) ∙ ap some f

-- What a step from an encoder at `state a k t` has to show.
Follows-step :
    {bs : List ℕ} (b : ℕ) {e s s' : Bits}
    → e ≡ s
    → encode_byte b s ≡ s'
    → Follows bs s'
    → Follows bs (encode_byte b e)
Follows-step {bs} b ee step f = subst (Follows bs) (sym (ap (encode_byte b) ee ∙ step)) f

pub run_at :
    {e d s : Bits} (t : Text) {k a : ℕ}
    → e ≡ state a k t
    → d ≡ s
    → decode_loop e.out start ≡ some d
    → decode_loop t start ≡ some s
run_at t ee de r = ap (λ (e : Bits). decode_loop e.out start) (sym ee) ∙ r ∙ ap some de

-- The bytes before, and the one that two parts make up.
snoc_eq :
    (bs o : List ℕ) (x y b : ℕ)
    → bs ≡ o ++ x ∷ []
    → x ≡ y
    → (z : ℕ) → z ≡ b
    → bs ++ b ∷ [] ≡ (o ++ y ∷ []) ++ z ∷ []
snoc_eq bs o x y b e p z q = ap₂ (λ l c. l ++ c ∷ []) (e ∙ ap (λ c. o ++ c ∷ []) p) (sym q)

module _ (bs : List ℕ) (e d : Bits) (b : ℕ) (hb : b < 256)
    (r : decode_loop e.out start ≡ some d) where
  step-Follows : Linked bs e d → Follows (bs ++ b ∷ []) (encode_byte b e)
  step-Follows (at_zero t ee de) = Follows-step b ee (byte_zero 0 b t hb (omega arith)) (
    state (b / 8) 5 bs,
    one_more t (run_at t ee de r) (b / 8) (omega arith) (wait_zero 0 (b / 8) bs (omega arith) refl),
    at_three _ (b % 8) (b / 8) bs (omega arith) (omega arith) refl refl
        (ap (λ c. bs ++ c ∷ []) (omega arith)),
  )
  step-Follows (at_one t a p o ha hp ee de be) = Follows-step b ee (byte_one a b t hb ha) (
    _,
    one_more t (run_at t ee de r) (a * 16 + b / 16) (omega arith)
        (give_seven p (a * 16 + b / 16) o (omega arith) hp),
    at_four _ (b % 16) _ _ (omega arith) (omega arith) refl refl
        (snoc_eq bs o _ _ b be (omega arith) _ (omega arith)),
  )
  step-Follows (at_two t a p o ha hp ee de be) = Follows-step b ee (byte_two a b t hb ha) (
    _,
    two_more t (run_at t ee de r) (a * 8 + b / 32) (b % 32) (omega arith) (omega arith)
        (give_six p (a * 8 + b / 32) o (omega arith) hp)
        (give_three _ (b % 32) _ (omega arith) (omega arith)),
    at_zero _ refl
        (ap (λ o. state 0 0 o) (sym (snoc_eq bs o _ _ b be (omega arith) _ (omega arith)))),
  )
  step-Follows (at_three t a p o ha hp ee de be) = Follows-step b ee (byte_three a b t hb ha) (
    _,
    two_more t (run_at t ee de r) (a * 4 + b / 64) (b / 2 % 32) (omega arith) (omega arith)
        (give_five p (a * 4 + b / 64) o (omega arith) hp)
        (wait_two _ (b / 2 % 32) _ (omega arith) (omega arith)),
    at_one _ (b % 2) _ _ (omega arith) (omega arith) refl refl
        (snoc_eq bs o _ _ b be (omega arith) _ (omega arith)),
  )
  step-Follows (at_four t a p o ha hp ee de be) = Follows-step b ee (byte_four a b t hb ha) (
    _,
    two_more t (run_at t ee de r) (a * 2 + b / 128) (b / 4 % 32) (omega arith) (omega arith)
        (give_four p (a * 2 + b / 128) o (omega arith) hp)
        (wait_one _ (b / 4 % 32) _ (omega arith) (omega arith)),
    at_two _ (b % 4) _ _ (omega arith) (omega arith) refl refl
        (snoc_eq bs o _ _ b be (omega arith) _ (omega arith)),
  )

pub encode_loop-Follows :
    (bytes done : List ℕ) (e : Bits)
    → All IsByte bytes
    → Follows done e
    → Follows (done ++ bytes) (encode_loop bytes e)
unfolding encode_loop
encode_loop-Follows [] done e h f = subst (λ l. Follows l e) (sym (append-nil done)) f
encode_loop-Follows (b ∷ bytes) done e h (d, r, l) =
    subst (λ t. Follows t (encode_loop bytes (encode_byte b e))) (append_assoc done (b ∷ []) bytes)
      (encode_loop-Follows bytes (done ++ b ∷ []) (encode_byte b e) h.1
        (step-Follows done e d b h.0 r l))

-- ===== src/Format/Decimal.antt =====
-- Bigints and their decimal text: `BigInt(digits)`, `toString`, `padStart`, `padEnd`, as
-- profile/packages/format/src uses them.
use native.Mathlib.Nat.{pow-suc}
use candid_core.Common.{
  ℕ, zero, suc, ◌+◌, ◌-◌, ◌*◌, ◌/◌, ◌%◌, ◌^◌, ◌≤◌, ◌<◌, [], ◌∷◌, ◌++◌, ◌≡◌, refl, arith, ◌==◌,
  if◌then◌else◌, length, length-append, All, All-append, replicate, length-replicate, Bool-cases,
  inl, inr, ℤ, pos, negsuc, ap, ◌∙◌, Bool, true, false, not,
}
use candid_core.Format.Chars.{Text}

-- `BigInt(s)` of a digit string, behind the value `a` of the digits before it.
abbrev pub value_from : ℕ → Text → ℕ
value_from a [] = a
value_from a (c ∷ s) = value_from (a * 10 + (c - b'0')) s

abbrev pub value : Text → ℕ
value = value_from 0

-- The digits of `n`, by division; `f` bounds the rounds.
emit : ℕ → ℕ → Text → Text
emit zero n acc = acc
emit (suc f) n acc =
    let rest = emit f (n / 10) ((b'0' + n % 10) ∷ acc) in
    if n / 10 == 0 then (b'0' + n % 10) ∷ acc else rest

unfoldable pub nat_to_string : ℕ → Text
unfolding emit
nat_to_string n = emit (suc n) n []

unfoldable pub to_string : ℤ → Text
unfolding nat_to_string
to_string (pos n) = nat_to_string n
to_string (negsuc n) = b'-' ∷ nat_to_string (suc n)

-- `s.padStart(w, "0")` and `s.padEnd(w, "0")`.
unfoldable pub pad_start : Text → ℕ → Text
pad_start s w = replicate (w - length s) b'0' ++ s

unfoldable pub pad_end : Text → ℕ → Text
pad_end s w = s ++ replicate (w - length s) b'0'

-- `s.replace(/0+$/, "")` and `s.replace(/^0+/, "")`.
abbrev pub cons_digit : ℕ → Text → Text
cons_digit c [] = if c == b'0' then [] else c ∷ []
cons_digit c (d ∷ s) = c ∷ d ∷ s

abbrev pub strip_end : Text → Text
strip_end [] = []
strip_end (c ∷ s) = cons_digit c (strip_end s)

abbrev pub strip_start : Text → Text
strip_start [] = []
strip_start (c ∷ s) = if c == b'0' then strip_start s else c ∷ s

abbrev pub IsDigit : ℕ → Type 0
IsDigit c = (b'0' ≤ c) × (c ≤ b'9')

value_from-emit : (f n : ℕ) (acc : Text) → n < f → value_from 0 (emit f n acc) ≡ value_from n acc
unfolding emit
value_from-emit zero n acc h = elim h [ ]
value_from-emit (suc f) n acc h = ground (arith, value_from-emit f (n / 10) ((b'0' + n % 10) ∷ acc))

-- A number is read back from its decimal text.
pub value-nat_to_string : (n : ℕ) → value (nat_to_string n) ≡ n
unfolding nat_to_string
value-nat_to_string n = value_from-emit (suc n) n [] (omega arith)

emit-IsDigit : (f n : ℕ) (acc : Text) → All IsDigit acc → All IsDigit (emit f n acc)
unfolding emit
emit-IsDigit zero n acc h = h
emit-IsDigit (suc f) n acc h = ground (arith, emit-IsDigit f (n / 10) ((b'0' + n % 10) ∷ acc))

pub nat_to_string-IsDigit : (n : ℕ) → All IsDigit (nat_to_string n)
unfolding nat_to_string
nat_to_string-IsDigit n = emit-IsDigit (suc n) n [] tt

length-emit : (f n : ℕ) (acc : Text) → length acc ≤ length (emit f n acc)
unfolding emit
length-emit zero n acc = omega arith
length-emit (suc f) n acc = ground (arith, length-emit f (n / 10) ((b'0' + n % 10) ∷ acc))

-- The text of a number has at least one digit.
pub length-nat_to_string : (n : ℕ) → 0 < length (nat_to_string n)
unfolding nat_to_string emit
length-nat_to_string n = ground (arith, length-emit n (n / 10) ((b'0' + n % 10) ∷ []))

pub value_from_eq : (a : ℕ) (s : Text) → value_from a s ≡ a * 10 ^ length s + value_from 0 s
value_from_eq a [] = omega arith
value_from_eq a (c ∷ s) = omega (
  arith,
  value_from_eq (a * 10 + (c - b'0')) s,
  value_from_eq (0 * 10 + (c - b'0')) s,
  ap (λ (t : ℕ). a * t) (pow-suc 10 (length s)),
)

pub value_from-append : (a : ℕ) (s t : Text) → value_from a (s ++ t) ≡ value_from (value_from a s) t
value_from-append a [] t = refl
value_from-append a (c ∷ s) t = value_from-append (a * 10 + (c - b'0')) s t

pub value_from-zeros : (a k : ℕ) → value_from a (replicate k b'0') ≡ a * 10 ^ k
value_from-zeros a zero = omega arith
value_from-zeros a (suc k) =
    omega (arith, value_from-zeros (a * 10 + 0) k, ap (λ (t : ℕ). a * t) (pow-suc 10 k))

pub value-pad_start : (s : Text) (w : ℕ) → value (pad_start s w) ≡ value s
unfolding pad_start
value-pad_start s w =
    value_from-append 0 (replicate (w - length s) b'0') s
    ∙ ap (λ (t : ℕ). value_from t s) (omega (arith, value_from-zeros 0 (w - length s)))

pub length-pad_start : (s : Text) (w : ℕ) → w ≤ length (pad_start s w)
unfolding pad_start
length-pad_start s w = omega (
  arith,
  length-append (replicate (w - length s) b'0') s,
  length-replicate {A = ℕ} (w - length s) b'0',
)

sub_suc : (n m : ℕ) → suc n - suc m ≡ n - m
sub_suc n m = omega arith

sub_zero : (n : ℕ) → n - 0 ≡ n
sub_zero n = omega arith

pad_end-cons_digit :
    (c : ℕ) (t s : Text)
    → pad_end t (length s) ≡ s
    → pad_end (cons_digit c t) (suc (length s)) ≡ c ∷ s
unfolding pad_end
pad_end-cons_digit c [] s e = elim (Bool-cases (c == b'0')) [
  | inl zero_digit ↦
      let same : c ≡ b'0' = ground arith in
      rw (zero_digit, sub_zero, same) (ap (λ t. b'0' ∷ t) (rw sub_zero at e))
  | inr other ↦ rw (other, sub_suc) (ap (λ t. c ∷ t) e)
]
pad_end-cons_digit c (d ∷ t) s e = ap (λ t. c ∷ t) (rw (sub_suc (length s) (suc (length t))) e)

-- The zeros that `strip_end` takes away are those that `pad_end` puts back.
pub pad_end-strip_end : (s : Text) → pad_end (strip_end s) (length s) ≡ s
unfolding pad_end
pad_end-strip_end [] = refl
pad_end-strip_end (c ∷ s) = pad_end-cons_digit c (strip_end s) s (pad_end-strip_end s)

pub value-pad_end :
    (s : Text) (w : ℕ) → length s ≤ w → value (pad_end s w) ≡ value s * 10 ^ (w - length s)
unfolding pad_end
value-pad_end s w h =
    value_from-append 0 s (replicate (w - length s) b'0')
    ∙ value_from-zeros (value s) (w - length s)

-- Where a digit string is cut, its value is that of the two parts.
pub value-append : (s t : Text) → value (s ++ t) ≡ value s * 10 ^ length t + value t
value-append s t = value_from-append 0 s t ∙ value_from_eq (value s) t

length-cons_digit : (c : ℕ) (t : Text) → length (cons_digit c t) ≤ suc (length t)
length-cons_digit c [] = ground arith
length-cons_digit c (d ∷ t) = omega arith

pub length-strip_end : (s : Text) → length (strip_end s) ≤ length s
length-strip_end [] = omega arith
length-strip_end (c ∷ s) = omega (arith, length-strip_end s, length-cons_digit c (strip_end s))

cons_digit-IsDigit : (c : ℕ) (t : Text) → IsDigit c → All IsDigit t → All IsDigit (cons_digit c t)
cons_digit-IsDigit c [] h k = elim (Bool-cases (c == b'0')) [
  | inl e ↦ rw e tt
  | inr e ↦ rw e (h, tt)
]
cons_digit-IsDigit c (d ∷ t) h k = (h, k)

pub strip_end-IsDigit : (s : Text) → All IsDigit s → All IsDigit (strip_end s)
strip_end-IsDigit [] h = tt
strip_end-IsDigit (c ∷ s) h = cons_digit-IsDigit c (strip_end s) h.0 (strip_end-IsDigit s h.1)

zeros-IsDigit : (k : ℕ) → All IsDigit (replicate k b'0')
zeros-IsDigit zero = tt
zeros-IsDigit (suc k) = ((omega arith, omega arith), zeros-IsDigit k)

pub pad_start-IsDigit : (n w : ℕ) → All IsDigit (pad_start (nat_to_string n) w)
unfolding pad_start
pad_start-IsDigit n w =
    All-append IsDigit (replicate (w - length (nat_to_string n)) b'0') (nat_to_string n)
      (zeros-IsDigit (w - length (nat_to_string n))) (nat_to_string-IsDigit n)

-- A number has as many digits as it needs, the first of which is not zero unless the number is.
emit-size : (f n k : ℕ) (acc : Text) → n < 10 ^ suc k → length (emit f n acc) ≤ suc k + length acc
unfolding emit
emit-size zero n k acc h = omega arith
emit-size (suc f) n zero acc h = let e : (n / 10 == 0) ≡ true = ground arith in rw e (omega arith)
emit-size (suc f) n (suc k) acc h =
    let p = pow-suc 10 (suc k) in
    let fewer = emit-size f (n / 10) k ((b'0' + n % 10) ∷ acc) (omega arith) in
    elim (Bool-cases (n / 10 == 0)) [
      | inl last ↦ rw last (omega arith)
      | inr more ↦ rw more (omega arith)
    ]

pub nat_to_string-size : (n k : ℕ) → n < 10 ^ suc k → length (nat_to_string n) ≤ suc k
unfolding nat_to_string
nat_to_string-size n k h = omega (arith, emit-size (suc n) n k [] h)

abbrev pub leads : Text → Bool
leads [] = false
leads (c ∷ s) = not (c == b'0')

emit-leads : (f n : ℕ) (acc : Text) → n < f → 0 < n → leads (emit f n acc) ≡ true
unfolding emit
emit-leads zero n acc h p = elim h [ ]
emit-leads (suc f) n acc h p = elim (Bool-cases (n / 10 == 0)) [
  | inl last ↦ rw last (ground arith)
  | inr more ↦ rw more (emit-leads f (n / 10) ((b'0' + n % 10) ∷ acc) (omega arith) (ground arith))
]

pub nat_to_string-leads : (n : ℕ) → 0 < n → leads (nat_to_string n) ≡ true
unfolding nat_to_string
nat_to_string-leads n h = emit-leads (suc n) n [] (omega arith) h

-- ===== src/Format/Time/Duration/Groups.antt =====
-- Each group of a duration that `displayDuration` of profile/packages/format/src/time.mjs writes is found by
-- DURATION, and no other.
use candid_core.Format.Amount.{point}
use candid_core.Format.Amount.Match.{All-digits, optional}
use candid_core.Format.Decimal.{nat_to_string, length-nat_to_string, nat_to_string-IsDigit, IsDigit}
use candid_core.Format.Chars.{is_digit, Text}
use candid_core.Common.{
  ℕ, ◌<◌, true, false, ◌&&◌, [], ◌∷◌, ◌++◌, ◌≡◌, refl, ◌⊎◌, inl, inr, arith, ◌==◌, if◌then◌else◌,
  length, All, Option, none, some, Bool-cases, text_eq, drop_while, take_while, drop_while-append,
  take_while-append, text_eq→eq,
}
use candid_core.Format.Time.Duration.{
  unit_group, Text, is_digit, part, nat_to_string, seconds_group, seconds_part, digit_first, point,
}

digits-true : (n : ℕ) → All (λ c. is_digit c ≡ true) (nat_to_string n)
digits-true n = All-digits (nat_to_string n) (nat_to_string-IsDigit n)

no_digits : (n : ℕ) → text_eq (nat_to_string n) [] ≡ false
no_digits n = go (nat_to_string n) (length-nat_to_string n)
  where
    go : (s : Text) → 0 < length s → text_eq s [] ≡ false
    go [] h = elim h [ ]
    go (c ∷ s) h = refl

module _ (n : ℕ) (c : ℕ) (rest : Text) (stop : is_digit c ≡ false) where
  taken : take_while is_digit (nat_to_string n ++ (c ∷ rest)) ≡ nat_to_string n
  taken = take_while-append is_digit (nat_to_string n) (c ∷ rest) (digits-true n) stop

  left : drop_while is_digit (nat_to_string n ++ (c ∷ rest)) ≡ c ∷ rest
  left = drop_while-append is_digit (nat_to_string n) (c ∷ rest) (digits-true n) stop

  group_here : unit_group c (nat_to_string n ++ (c ∷ rest)) ≡ (some (nat_to_string n), rest)
  unfolding unit_group
  group_here = let same : (c == c) ≡ true = ground arith in rw (taken, left, same, no_digits n) refl

  -- Another letter's group.
  group_other :
      (unit : ℕ)
      → (c == unit) ≡ false
      → unit_group unit (nat_to_string n ++ (c ∷ rest)) ≡ (none, nat_to_string n ++ (c ∷ rest))
  unfolding unit_group
  group_other unit h = rw (taken, left, h) refl

-- What a group finds in a part that was written, if it finds nothing in what follows.
abbrev pub shown : ℕ → Option Text
shown n = if n == 0 then none else some (nat_to_string n)

pub unit_group-part :
    (n unit : ℕ) (rest : Text)
    → is_digit unit ≡ false
    → unit_group unit rest ≡ (none, rest)
    → unit_group unit (part n unit rest) ≡ (shown n, rest)
unfolding part
unit_group-part n unit rest stop h = elim (Bool-cases (n == 0)) [
  | inl nothing ↦ rw nothing h
  | inr some_left ↦ rw some_left (group_here n unit rest stop)
]

pub unit_group-other :
    (n other unit : ℕ) (rest : Text)
    → is_digit other ≡ false
    → (other == unit) ≡ false
    → unit_group unit rest ≡ (none, rest)
    → unit_group unit (part n other rest) ≡ (none, part n other rest)
unfolding part
unit_group-other n other unit rest stop differ h = elim (Bool-cases (n == 0)) [
  | inl nothing ↦ rw nothing h
  | inr some_left ↦ rw some_left (group_other n other rest stop unit differ)
]

unfoldable pub shown_seconds : ℕ → Text → Option Text
shown_seconds s frac = if s == 0 && text_eq frac [] then none else some (nat_to_string s)

seconds_here :
    (s : ℕ) (frac : Text)
    → All IsDigit frac
    → seconds_group (nat_to_string s ++ (point frac ++ (b'S' ∷ [])))
      ≡ (some (nat_to_string s), optional frac, [])
unfolding seconds_group
seconds_here s [] h = rw (taken s b'S' [] refl, left s b'S' [] refl, no_digits s) refl
seconds_here s (c ∷ frac) h =
    let all_digits = All-digits (c ∷ frac) h in
    rw
      (
        taken s b'.' (c ∷ (frac ++ (b'S' ∷ []))) refl,
        left s b'.' (c ∷ (frac ++ (b'S' ∷ []))) refl,
        no_digits s,
        all_digits.0,
        take_while-append is_digit frac (b'S' ∷ []) all_digits.1 refl,
        drop_while-append is_digit frac (b'S' ∷ []) all_digits.1 refl,
      )
      refl

pub seconds_group-seconds_part :
    (s : ℕ) (frac : Text)
    → All IsDigit frac
    → (shown_frac : Option Text) → shown_frac ≡ optional frac
    → seconds_group (seconds_part s frac) ≡ (shown_seconds s frac, shown_frac, [])
unfolding seconds_part shown_seconds
seconds_group-seconds_part s frac h shown_frac e = elim (Bool-cases (s == 0 && text_eq frac [])) [
  | inl nothing ↦
      let empty : frac ≡ [] = text_eq→eq frac [] (ground (arith, nothing)) in
      rw (nothing, e, empty) (unfold seconds_group in refl)
  | inr some_left ↦ rw (some_left, e) (seconds_here s frac h)
]

-- The seconds hold no other group.
pub unit_group-seconds_part :
    (s : ℕ) (frac : Text) (unit : ℕ)
    → (b'S' == unit) ≡ false
    → (b'.' == unit) ≡ false
    → unit_group unit (seconds_part s frac) ≡ (none, seconds_part s frac)
unfolding seconds_part
unit_group-seconds_part s frac unit no_s no_point = elim (Bool-cases (s == 0 && text_eq frac [])) [
  | inl nothing ↦ rw nothing (unfold unit_group in refl)
  | inr some_left ↦ rw some_left (go frac)
]
  where
    go :
        (frac : Text)
        → unit_group unit (nat_to_string s ++ (point frac ++ (b'S' ∷ [])))
          ≡ (none, nat_to_string s ++ (point frac ++ (b'S' ∷ [])))
    go [] = group_other s b'S' [] refl unit no_s
    go (c ∷ f) = group_other s b'.' (c ∷ (f ++ (b'S' ∷ []))) refl unit no_point

-- A text of groups is empty, or begins with a digit.
abbrev pub Begins : Text → Type 0
Begins t = (t ≡ []) ⊎ (digit_first t ≡ true)

digits-Begins : (n : ℕ) (rest : Text) → digit_first (nat_to_string n ++ rest) ≡ true
digits-Begins n rest = go (nat_to_string n) (length-nat_to_string n) (digits-true n)
  where
    go : (s : Text) → 0 < length s → All (λ c. is_digit c ≡ true) s → digit_first (s ++ rest) ≡ true
    go [] h k = elim h [ ]
    go (c ∷ s) h k = k.0

pub part-Begins : (n unit : ℕ) (rest : Text) → Begins rest → Begins (part n unit rest)
unfolding part
part-Begins n unit rest h = elim (Bool-cases (n == 0)) [
  | inl nothing ↦ rw nothing h
  | inr some_left ↦ rw some_left (inr (digits-Begins n (unit ∷ rest)))
]

pub seconds_part-Begins : (s : ℕ) (frac : Text) → Begins (seconds_part s frac)
unfolding seconds_part
seconds_part-Begins s frac = elim (Bool-cases (s == 0 && text_eq frac [])) [
  | inl nothing ↦ rw nothing (inl refl)
  | inr some_left ↦ rw some_left (inr (digits-Begins s (point frac ++ (b'S' ∷ []))))
]

-- ===== src/Resolver/Template/Ends.antt =====
-- The loop of `parseTemplate` of profile/packages/resolver/src/checks.mjs ends: every round takes a
-- character, so as many rounds as characters and one more are enough.
use candid_core.Common.{
  ℕ, zero, suc, ◌+◌, ◌≤◌, ◌<◌, Bool, true, false, ◌&&◌, [], ◌∷◌, ◌≡◌, refl, ◌==◌, if◌then◌else◌,
  length, Option, none, some, arith,
}
use candid_core.Format.Chars.{Text}
use candid_core.Format.Split.{split_first, cons_before}
use candid_core.Resolver.Template.{
  Scanned, scanned, refused, out_of_fuel, Round, go, stop, is_bracket, next_is, tail, continue,
  Seen, braced, check_char, checked, check_from, nothing_seen, check_template,
}

-- The text behind a round is at most this long.
Within : {S : Type 0} → ℕ → Round S → Type 0
Within n (stop e) = Unit {0}
Within n (go st s) = length s ≤ n

pub either_if :
    {A : Type 0} (P : A → Type 0) (test : Bool) (x y : A) → P x → P y → P (if test then x else y)
either_if P true x y h k = h
either_if P false x y h k = k

RestWithin : ℕ → Option (Text × Text) → Type 0
RestWithin n none = Unit {0}
RestWithin n (some (before, after)) = length after ≤ n

cons_before-RestWithin :
    (d n : ℕ) (found : Option (Text × Text))
    → RestWithin n found
    → RestWithin (suc n) (cons_before d found)
unfolding RestWithin
cons_before-RestWithin d n none h = tt
cons_before-RestWithin d n (some (before, after)) h = omega (arith, h)

split_first-RestWithin : (c : ℕ) (s : Text) → RestWithin (length s) (split_first c s)
unfolding split_first RestWithin
split_first-RestWithin c [] = tt
split_first-RestWithin c (d ∷ s) =
    either_if (RestWithin (suc (length s))) (d == c) _ _ (omega arith)
      (cons_before-RestWithin d (length s) (split_first c s) (split_first-RestWithin c s))

braced-Within :
    (n : ℕ) (found : Option (Text × Text)) (st : Seen)
    → RestWithin n found
    → Within n (braced found st)
unfolding Within RestWithin
braced-Within n none st h = tt
braced-Within n (some (path, after)) st h = h

length-tail : (s : Text) → length (tail s) ≤ length s
length-tail [] = omega arith
length-tail (c ∷ s) = omega arith

check_char-Within : (c : ℕ) (s : Text) (st : Seen) → Within (length s) (check_char c s st)
unfolding check_char Within
check_char-Within c s st =
    let same : length s ≤ length s = omega arith in
    either_if (Within (length s)) (is_bracket c && next_is c s) _ _ (length-tail s) (
      either_if (Within (length s)) (c == b'[') _ _
        (either_if (Within (length s)) st.depth _ _ tt same)
        (either_if (Within (length s)) (c == b']') _ _
          (either_if (Within (length s)) st.depth _ _ same tt)
          (either_if (Within (length s)) (c == b'{') _ _
            (braced-Within (length s) (split_first b'}' s) st (split_first-RestWithin b'}' s))
            (either_if (Within (length s)) (c == b'}') _ _ tt same))))

abbrev pub is_ended : {A : Type 0} → Scanned A → Bool
is_ended out_of_fuel = false
is_ended (scanned a) = true
is_ended (refused e) = true

checked-ended : (st : Seen) → is_ended (checked st) ≡ true
checked-ended st = ground arith

continue-ended :
    (r : Round Seen) (n fuel : ℕ)
    → Within n r
    → n < fuel
    → ((s : Text) (st : Seen) → length s < fuel → is_ended (check_from fuel s st) ≡ true)
    → is_ended (continue r (λ st s. check_from fuel s st)) ≡ true
unfolding Within
continue-ended (stop e) n fuel h k later = refl
continue-ended (go st s) n fuel h k later = later s st (omega (arith, h, k))

check_from-ended :
    (fuel : ℕ) (s : Text) (st : Seen) → length s < fuel → is_ended (check_from fuel s st) ≡ true
unfolding check_from
check_from-ended zero s st h = absurd (omega (arith, h))
check_from-ended (suc fuel) [] st h = checked-ended st
check_from-ended (suc fuel) (c ∷ s) st h =
    continue-ended (check_char c s st) (length s) fuel (check_char-Within c s st) (omega (arith, h))
      (check_from-ended fuel)

pub check_template-ended : (t : Text) → is_ended (check_template t) ≡ true
unfolding check_template
check_template-ended t = check_from-ended (length t + 1) t nothing_seen (omega arith)

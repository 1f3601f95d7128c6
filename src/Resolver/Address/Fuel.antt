-- ===== src/Resolver/Address/Fuel.antt =====
-- The loop of `parsePath` of profile/packages/resolver/src/address.mjs: a segment takes a character, so
-- as many rounds as characters are enough.
use candid_core.Common.{
  ℕ, zero, suc, ◌+◌, ◌≤◌, Bool, ◌&&◌, List, [], ◌∷◌, ◌≡◌, refl, ap, ltb, ◌==◌, length, Option, none,
  some, arith, take, drop, text_eq, length-append,
}
use candid_core.Format.Chars.{Text, is_digit, codes}
use candid_core.Format.Decimal.{value}
use candid_core.Resolver.Walk.{Seg}
use candid_core.Resolver.Address.{
  is_letter, is_word, cons_start, span, match_ident, match_digits, ten_digits, named_seg, u32_max,
  numbered_seg, label_seg, match_seg, cons_seg, then_segs, parse_from, parse_path,
}
use candid_core.Resolver.Template.Ends.{either_if}

-- What is behind a match is at most this long.
abbrev Behind : {A : Type 0} → ℕ → Option (A × Text) → Type 0
Behind n none = Unit {0}
Behind n (some (a, rest)) = length rest ≤ n

length-drop-below : (n : ℕ) (s : Text) → length (drop n s) ≤ length s
length-drop-below zero s = omega arith
length-drop-below (suc n) [] = omega arith
length-drop-below (suc n) (c ∷ s) = omega (arith, length-drop-below n s)

span-length : (p : ℕ → Bool) (s : Text) → length (span p s).0 + length (span p s).1 ≤ length s
unfolding span
span-length p [] = omega arith
span-length p (c ∷ s) =
    either_if (λ q. length q.0 + length q.1 ≤ suc (length s)) (p c) (cons_start c (span p s))
      ([], c ∷ s) (omega (arith, span-length p s)) (omega arith)

ten_digits-length : (q : Text × Text) → length (ten_digits q).1 ≤ length q.0 + length q.1
ten_digits-length q = rw (length-append (drop 10 q.0) q.1) (omega (arith, length-drop-below 10 q.0))

match_ident-Behind : (s : Text) → Behind (length s) (match_ident s)
unfolding match_ident
match_ident-Behind [] = tt
match_ident-Behind (c ∷ s) =
    either_if (Behind (suc (length s))) (is_letter c) _ _
      (omega (arith, span-length is_word (c ∷ s))) tt

match_digits-Behind : (s : Text) → Behind (length s) (match_digits s)
unfolding match_digits
match_digits-Behind [] = tt
match_digits-Behind (c ∷ s) = either_if (Behind (suc (length s))) (c == b'0') _ _ (omega arith) (
    either_if (Behind (suc (length s))) (is_digit c) _ _
      (omega (arith, ten_digits-length (span is_digit (c ∷ s)), span-length is_digit (c ∷ s))) tt)

named_seg-Behind : (n : ℕ) (m : Option (Text × Text)) → Behind n m → Behind n (named_seg m)
named_seg-Behind n none h = tt
named_seg-Behind n (some (label, rest)) h = h

numbered_seg-Behind : (n : ℕ) (m : Option (Text × Text)) → Behind n m → Behind n (numbered_seg m)
numbered_seg-Behind n none h = tt
numbered_seg-Behind n (some (digits, rest)) h =
    either_if (Behind n) (ltb u32_max (value digits)) _ _ tt h

Behind-suc : {A : Type 0} (n : ℕ) (m : Option (A × Text)) → Behind n m → Behind (suc n) m
Behind-suc n none h = tt
Behind-suc n (some (a, rest)) h = omega (arith, h)

label_seg-Behind : (s : Text) → Behind (length s) (label_seg s)
label_seg-Behind [] = tt
label_seg-Behind (c ∷ s) =
    either_if (Behind (suc (length s))) (c == b'#') _ _
      (Behind-suc (length s) _ (numbered_seg-Behind (length s) _ (match_digits-Behind s)))
      (named_seg-Behind (suc (length s)) _ (match_ident-Behind (c ∷ s)))

match_seg-Behind : (c : ℕ) (s : Text) → Behind (length s) (match_seg (c ∷ s))
unfolding match_seg
match_seg-Behind c s = either_if (Behind (length s)) (c == b'.') _ _ (label_seg-Behind s) (
    either_if (Behind (length s)) (c == b'[' && text_eq (take 1 s) (codes "]")) _ _
      (length-drop-below 1 s) tt)

same_segs :
    (n : ℕ) (m : Option (Seg × Text)) (f g : Text → Option (List Seg))
    → Behind n m
    → ((s : Text) → length s ≤ n → f s ≡ g s)
    → then_segs f m ≡ then_segs g m
same_segs n none f g h k = refl
same_segs n (some (seg, rest)) f g h k = ap (cons_seg seg) (k rest h)

enough : (n k : ℕ) (s : Text) → length s ≤ n → length s ≤ k → parse_from n s ≡ parse_from k s
unfolding parse_from
enough n k [] h h' = refl
enough zero k (c ∷ s) h h' = absurd (omega (arith, h))
enough (suc n) zero (c ∷ s) h h' = absurd (omega (arith, h'))
enough (suc n) (suc k) (c ∷ s) h h' =
    same_segs (length s) (match_seg (c ∷ s)) (parse_from n) (parse_from k) (match_seg-Behind c s)
      (λ t short. enough n k t (omega (arith, h, short)) (omega (arith, h', short)))

-- More rounds than characters change nothing.
parse_path-enough : (fuel : ℕ) (s : Text) → length s ≤ fuel → parse_from fuel s ≡ parse_path s
unfolding parse_path
parse_path-enough fuel s h = enough fuel (length s) s h (omega arith)

-- ===== src/Format/Split.antt =====
-- Where a character stands in a text: `indexOf` and `lastIndexOf` with the `slice`s before and after, as
-- profile/packages/format/src/account.mjs uses them.
use candid_core.Common.{
  ℕ, Bool, true, false, [], ◌∷◌, ◌++◌, ◌≡◌, refl, ◌==◌, ==_iff, if◌then◌else◌, All, Option, none,
  some,
}
use candid_core.Format.Chars.{Text}

abbrev pub cons_before : ℕ → Option (Text × Text) → Option (Text × Text)
cons_before d none = none
cons_before d (some (before, after)) = some (d ∷ before, after)

-- At the first `c`, and at the last.
unfoldable pub split_first : ℕ → Text → Option (Text × Text)
split_first c [] = none
split_first c (d ∷ s) = if d == c then some ([], s) else cons_before d (split_first c s)

abbrev pub or_here : Bool → Text → Option (Text × Text) → Option (Text × Text)
or_here here s none = if here then some ([], s) else none
or_here here s (some parts) = some parts

unfoldable pub split_last : ℕ → Text → Option (Text × Text)
split_last c [] = none
split_last c (d ∷ s) = or_here (d == c) s (cons_before d (split_last c s))

abbrev pub Lacks : ℕ → ℕ → Type 0
Lacks c d = (d == c) ≡ false

module _ (c : ℕ) where
  same : (c == c) ≡ true
  same = (==_iff c c).1 refl

  pub split_first-append :
      (before after : Text)
      → All (Lacks c) before
      → split_first c (before ++ c ∷ after) ≡ some (before, after)
  unfolding split_first
  split_first-append [] after h = rw same
  split_first-append (d ∷ before) after h = rw (h.0, split_first-append before after h.1)

  pub split_first-none : (s : Text) → All (Lacks c) s → split_first c s ≡ none
  unfolding split_first
  split_first-none [] h = refl
  split_first-none (d ∷ s) h = rw (h.0, split_first-none s h.1)

  split_last-none : (s : Text) → All (Lacks c) s → split_last c s ≡ none
  unfolding split_last
  split_last-none [] h = refl
  split_last-none (d ∷ s) h = rw (split_last-none s h.1, h.0)

  pub split_last-append :
      (before after : Text)
      → All (Lacks c) after
      → split_last c (before ++ c ∷ after) ≡ some (before, after)
  unfolding split_last
  split_last-append [] after h = rw (split_last-none after h, same)
  split_last-append (d ∷ before) after h = rw (split_last-append before after h)

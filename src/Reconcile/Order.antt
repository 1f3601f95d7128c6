-- ===== src/Reconcile/Order.antt =====
-- The blocks that `matchBlocks` of profile/packages/reconcile/src/index.mjs is given may come in any
-- order.
use candid_core.Common.{
  ℕ, ◌≡◌, refl, sym, subst, ap, ◌∙◌, if◌then◌else◌, Option, none, some, Option-cases, List, [], ◌∷◌,
  ◌==◌, Bool-cases, inl, inr, ==_iff, ◌⊎◌,
}
use mathlib.Core.Path.{fun_ext}
use mathlib.Core.List.{Permᴰ}
use mathlib.Core.Option.{none-ne-some}
use candid_core.Reconcile.Icrc3.{Icrc3}
use candid_core.Reconcile.Expected.{Expected}
use candid_core.Reconcile.Verdict.{Options, judge, by_id, match_blocks, Read, no_id, read, or_else}

-- The id of an entry, and the index that has this entry alone.
one : Read → ℕ → Option Icrc3
one no_id id = none
one (read i b) id = if i == id then some b else none

by_id-cons :
    (r : Read) (blocks : List Read) (id : ℕ)
    → by_id (r ∷ blocks) id ≡ or_else (by_id blocks id) (one r id)
unfolding by_id one
by_id-cons no_id blocks id = elim (Option-cases (by_id blocks id)) [
  | inl missing ↦ rw missing
  | inr (b, there) ↦ rw there
]
by_id-cons (read i b) blocks id = refl

-- No two entries have the same id.
abbrev Fresh : Read → List Read → Type 0
Fresh no_id blocks = Unit
Fresh (read i b) blocks = by_id blocks i ≡ none

abbrev pub DistinctIds : List Read → Type 0
DistinctIds [] = Unit
DistinctIds (r ∷ blocks) = Fresh r blocks × DistinctIds blocks

or_else-none : (a : Option Icrc3) {b : Option Icrc3} → or_else a b ≡ none → (a ≡ none) × (b ≡ none)
or_else-none none h = (refl, h)
or_else-none (some x) h = cc

one_self : (i : ℕ) (b : Icrc3) → one (read i b) i ≡ some b
unfolding one
one_self i b = rw ((==_iff i i).1 refl)

-- Two entries that exclude each other may change places.
Apart : Read → Read → Type 0
Apart r s = (id : ℕ) → (one r id ≡ none) ⊎ (one s id ≡ none)

Fresh-Apart : (r s : Read) (blocks : List Read) → Fresh r (s ∷ blocks) → Apart r s
unfolding Apart one
Fresh-Apart no_id s blocks h id = inl refl
Fresh-Apart (read i b) s blocks h id = elim (Bool-cases (i == id)) [
  | inl same ↦
      let e : i ≡ id = (==_iff i id).0 same in
      inr (
        subst (λ id. one s id ≡ none) e
          (or_else-none (by_id blocks i) (sym (by_id-cons s blocks i) ∙ h)).1)
  | inr differ ↦ inl (rw differ)
]

or_else_swap :
    (a b c : Option Icrc3)
    → (b ≡ none) ⊎ (c ≡ none)
    → or_else (or_else a b) c ≡ or_else (or_else a c) b
or_else_swap (some x) b c h = refl
or_else_swap none b c (inl h) = rw h (or_none c)
  where
    or_none : (c : Option Icrc3) → c ≡ or_else c none
    or_none none = refl
    or_none (some c) = refl
or_else_swap none b c (inr h) = rw h (or_none b)
  where
    or_none : (b : Option Icrc3) → or_else b none ≡ b
    or_none none = refl
    or_none (some b) = refl

by_id-swap :
    (r s : Read) (blocks : List Read)
    → Apart r s
    → (id : ℕ) → by_id (r ∷ s ∷ blocks) id ≡ by_id (s ∷ r ∷ blocks) id
unfolding Apart
by_id-swap r s blocks h id =
    by_id-cons r (s ∷ blocks) id
    ∙ ap (λ o. or_else o (one r id)) (by_id-cons s blocks id)
    ∙ or_else_swap (by_id blocks id) (one s id) (one r id) (other (h id))
    ∙ ap (λ o. or_else o (one s id)) (sym (by_id-cons r blocks id))
    ∙ sym (by_id-cons s (r ∷ blocks) id)
  where
    other : (one r id ≡ none) ⊎ (one s id ≡ none) → (one s id ≡ none) ⊎ (one r id ≡ none)
    other (inl e) = inr e
    other (inr e) = inl e

Fresh-by_id :
    (r : Read) (blocks blocks' : List Read)
    → ((id : ℕ) → by_id blocks id ≡ by_id blocks' id)
    → Fresh r blocks
    → Fresh r blocks'
Fresh-by_id no_id blocks blocks' e h = tt
Fresh-by_id (read i b) blocks blocks' e h = sym (e i) ∙ h

Fresh-tail : (r s : Read) (blocks : List Read) → Fresh r (s ∷ blocks) → Fresh r blocks
Fresh-tail no_id s blocks h = tt
Fresh-tail (read i b) s blocks h =
    (or_else-none (by_id blocks i) (sym (by_id-cons s blocks i) ∙ h)).0

Fresh-swap : (r s : Read) (blocks : List Read) → Apart r s → Fresh s blocks → Fresh s (r ∷ blocks)
unfolding Apart one
Fresh-swap r no_id blocks a h = tt
Fresh-swap r (read i b) blocks a h = elim (a i) [
  | inl e ↦ by_id-cons r blocks i ∙ rw (h, e)
  | inr e ↦ absurd (none-ne-some b (sym e ∙ one_self i b))
]

Permᴰ-by_id :
    {blocks blocks' : List Read}
    → Permᴰ blocks blocks'
    → DistinctIds blocks
    → DistinctIds blocks' × ((id : ℕ) → by_id blocks id ≡ by_id blocks' id)
Permᴰ-by_id Permᴰ.nil d = (d, λ id. refl)
Permᴰ-by_id (Permᴰ.cons {a = r} {b = s} {l₁ = bs} {l₂ = bs'} e p) (f, d) =
    let (d', q) = Permᴰ-by_id p d in
    (
      (subst (λ r. Fresh r bs') e (Fresh-by_id r bs bs' q f), d'),
      λ id.
          by_id-cons r bs id
          ∙ ap (λ o. or_else o (one r id)) (q id)
          ∙ sym (by_id-cons r bs' id)
          ∙ ap (λ r. by_id (r ∷ bs') id) e,
    )
Permᴰ-by_id (Permᴰ.swap {a = r} {b = s} {a' = s'} {b' = r'} {l = bs} e f) (hr, (hs, d)) =
    let apart = Fresh-Apart r s bs hr in
    (
      subst (λ r. DistinctIds (s' ∷ r ∷ bs)) e
          (subst (λ s. DistinctIds (s ∷ r ∷ bs)) f
            (Fresh-swap r s bs apart hs, (Fresh-tail r s bs hr, d))),
      λ id.
          by_id-swap r s bs apart id
          ∙ ap (λ s. by_id (s ∷ r ∷ bs) id) f
          ∙ ap (λ r. by_id (s' ∷ r ∷ bs) id) e,
    )
Permᴰ-by_id (Permᴰ.trans p q) d =
    let (d', e) = Permᴰ-by_id p d in let (d'', e') = Permᴰ-by_id q d' in (d'', λ id. e id ∙ e' id)

-- Blocks with distinct ids give one verdict in every order.
pub match_blocks_order :
    {blocks blocks' : List Read} (e : Option Expected) (o : Options)
    → Permᴰ blocks blocks'
    → DistinctIds blocks
    → match_blocks blocks e o ≡ match_blocks blocks' e o
unfolding match_blocks
match_blocks_order none o p d = refl
match_blocks_order (some e) o p d = ap (λ index. judge index o e) (fun_ext (Permᴰ-by_id p d).1)

-- ===== src/Format/Names/Only.antt =====
-- A name resolves to an entry exactly where that entry alone has it, of
-- profile/packages/format/src/names.mjs.
use candid_core.Common.{
  Bool, true, false, List, [], ◌∷◌, ◌++◌, ◌≡◌, refl, sym, ap, ◌∙◌, ◌↔◌, text_eq, All, Bool-cases,
  inl, inr,
}
use candid_core.Format.Chars.{Text}
use candid_core.Format.Names.{Entry, By, resolved, keep, field_of, pick, is_match, resolve_name}

-- One item passes a test, and no other.
module _ {A : Type 0} (p : A → Bool) where
  pub record IsOnly (xs : List A) (x : A) : Type 0 where
    pub before : List A
    pub after : List A
    pub parts : xs ≡ before ++ x ∷ after
    pub passes : p x ≡ true
    pub none_before : All (λ y. p y ≡ false) before
    pub none_after : All (λ y. p y ≡ false) after

  keep-none : (xs : List A) → keep p xs ≡ [] → All (λ y. p y ≡ false) xs
  keep-none [] h = tt
  keep-none (x ∷ xs) h = elim (Bool-cases (p x)) [
    | inl yes_x ↦ let g = rw yes_x at h in cc
    | inr no_x ↦ (no_x, keep-none xs (rw no_x at h))
  ]

  none-keep : (xs : List A) → All (λ y. p y ≡ false) xs → keep p xs ≡ []
  none-keep [] h = refl
  none-keep (x ∷ xs) h = rw h.0 (none-keep xs h.1)

  pub keep-IsOnly : (xs : List A) {x : A} → keep p xs ≡ x ∷ [] → IsOnly xs x
  keep-IsOnly [] h = cc
  keep-IsOnly (y ∷ ys) {x} h = elim (Bool-cases (p y)) [
    | inl yes_y ↦
        let g : y ∷ keep p ys ≡ x ∷ [] = rw yes_y at h in
        let same : y ≡ x = cc in
        record {
          before = [];
          after = ys;
          parts = ap (λ x. x ∷ ys) same;
          passes = ap p (sym same) ∙ yes_y;
          none_before = tt;
          none_after = keep-none ys cc;
        }
    | inr no_y ↦
        let o = keep-IsOnly ys (rw no_y at h) in
        record {
          before = y ∷ o.before;
          after = o.after;
          parts = ap (λ s. y ∷ s) o.parts;
          passes = o.passes;
          none_before = (no_y, o.none_before);
          none_after = o.none_after;
        }
  ]

  keep-parts :
      (before after : List A) (x : A)
      → p x ≡ true
      → All (λ y. p y ≡ false) before
      → All (λ y. p y ≡ false) after
      → keep p (before ++ x ∷ after) ≡ x ∷ []
  keep-parts [] after x h b a = rw h (ap (λ s. x ∷ s) (none-keep after a))
  keep-parts (y ∷ before) after x h b a = rw b.0 (keep-parts before after x h b.1 a)

  pub IsOnly-keep : (xs : List A) {x : A} → IsOnly xs x → keep p xs ≡ x ∷ []
  IsOnly-keep xs {x} o =
      ap (keep p) o.parts ∙ keep-parts o.before o.after x o.passes o.none_before o.none_after

module _ {V K : Type 0} where
  pick-resolved :
      (by : By) (found : List (Entry V K)) {v : V} {e : Entry V K}
      → pick by found ≡ resolved v e
      → (found ≡ e ∷ []) × (field_of by e ≡ v)
  pick-resolved by [] h = cc
  pick-resolved by (f ∷ []) h = (cc, cc)
  pick-resolved by (f ∷ g ∷ found) h = cc

  -- An input resolves to an entry and a value exactly where it is no value itself, its name is not empty,
  -- the entry alone has that name (with a name that is no value, and a kind that is asked for), and the
  -- value is the entry's field.
  pub resolve_name-resolved_iff :
      (normalize : Text → Text) (is_value : Text → Bool) (kind_ok : K → Bool)
      (entries : List (Entry V K)) (input : Text) (by : By) (v : V) (e : Entry V K)
      → (resolve_name normalize is_value kind_ok entries input by ≡ resolved v e) ↔ (
          (is_value input ≡ false)
          × (text_eq (normalize input) [] ≡ false)
          × IsOnly (is_match normalize is_value kind_ok (normalize input)) entries e
          × (field_of by e ≡ v))
  unfolding resolve_name
  resolve_name-resolved_iff normalize is_value kind_ok entries input by v e = (
    (λ h. elim (Bool-cases (is_value input)) [
      | inl own ↦ let g = rw own at h in cc
      | inr named ↦ elim (Bool-cases (text_eq (normalize input) [])) [
        | inl empty ↦ let g = rw (named, empty) at h in cc
        | inr some_name ↦
            let (one, f) = pick-resolved by _ (rw (named, some_name) at h) in
            (named, some_name, keep-IsOnly _ entries one, f)
      ]
    ]),
    (λ (named, some_name, only, f).
        rw (named, some_name)
          (ap (pick by) (IsOnly-keep _ entries only) ∙ ap (λ v. resolved v e) f)),
  )

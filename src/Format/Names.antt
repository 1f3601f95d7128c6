-- ===== src/Format/Names.antt =====
-- `resolveName` of profile/packages/format/src/names.mjs. The normalization (Unicode NFKC and the full
-- lower-case mapping, whose tables are not in the repository) and the caller's tests are parameters.
pub mod Only
pub mod Tests
use candid_core.Common.{ℕ, Bool, true, false, not, ◌&&◌, List, [], ◌∷◌, if◌then◌else◌, text_eq}
use candid_core.Format.Chars.{Text}

pub record Entry (V K : Type 0) : Type 0 where
  pub name : Text
  pub value : V
  pub show : V
  pub kind : K

-- `by`: which field of the entry fills the position.
pub data By : Type 0 where
  by_value by_show : By

pub data Resolution (V K : Type 0) : Type 0 where
  direct : Text → Resolution V K
  not_found : Resolution V K
  ambiguous : List (Entry V K) → Resolution V K
  resolved : V → Entry V K → Resolution V K

abbrev pub keep {ℓ} : {A : Type ℓ} → (A → Bool) → List A → List A
keep p [] = []
keep p (x ∷ xs) = if p x then x ∷ keep p xs else keep p xs

module _ {V K : Type 0} where
  abbrev pub field_of : By → Entry V K → V
  field_of by_value e = e.value
  field_of by_show e = e.show

  abbrev pub pick : By → List (Entry V K) → Resolution V K
  pick by [] = not_found
  pick by (e ∷ []) = resolved (field_of by e) e
  pick by (e ∷ f ∷ found) = ambiguous (e ∷ f ∷ found)

  module _ (normalize : Text → Text) (is_value : Text → Bool) (kind_ok : K → Bool) where
    abbrev pub is_match : Text → Entry V K → Bool
    is_match want e =
        not (text_eq (normalize e.name) [])
        && text_eq (normalize e.name) want
        && not (is_value e.name)
        && kind_ok e.kind

    unfoldable pub resolve_name : List (Entry V K) → Text → By → Resolution V K
    resolve_name entries input by =
        if is_value input
        then direct input
        else if text_eq (normalize input) []
        then not_found
        else pick by (keep (is_match (normalize input)) entries)

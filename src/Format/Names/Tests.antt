-- ===== src/Format/Names/Tests.antt =====
-- A run of profile/packages/format/src/names.mjs, with a normalization that lowers ASCII letters.
use candid_core.Common.{ℕ, Bool, true, false, [], ◌∷◌, ◌≡◌, refl, ◌↔◌, text_eq}
use candid_core.Format.Chars.{Text, codes, ascii_lower}
use candid_core.Format.Names.{Entry, by_value, resolved, field_of, is_match, resolve_name}
use candid_core.Format.Names.Only.{IsOnly, resolve_name-resolved_iff}

abbrev savings : Entry ℕ ℕ
savings = record { name = codes "Savings"; value = 1; show = 1; kind = 0 }

abbrev rent : Entry ℕ ℕ
rent = record { name = codes "Rent"; value = 2; show = 2; kind = 0 }

abbrev no_value : Text → Bool
no_value s = false

abbrev any_kind : ℕ → Bool
any_kind k = true

resolve_name_run :
    resolve_name ascii_lower no_value any_kind (savings ∷ rent ∷ []) (codes "RENT") by_value
    ≡ resolved 2 rent
unfolding resolve_name
resolve_name_run = refl

resolve_name-resolved_iff_example :
    (resolve_name ascii_lower no_value any_kind (savings ∷ rent ∷ []) (codes "RENT") by_value
      ≡ resolved 2 rent)
    ↔ ((no_value (codes "RENT") ≡ false)
        × (text_eq (ascii_lower (codes "RENT")) [] ≡ false)
        × IsOnly
            (is_match ascii_lower no_value any_kind (ascii_lower (codes "RENT")))
            (savings ∷ rent ∷ [])
            rent
        × (field_of by_value rent ≡ 2))
resolve_name-resolved_iff_example =
    resolve_name-resolved_iff ascii_lower no_value any_kind (savings ∷ rent ∷ []) (codes "RENT")
      by_value 2 rent

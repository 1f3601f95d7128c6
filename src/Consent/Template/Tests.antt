-- ===== src/Consent/Template/Tests.antt =====
-- Runs of the two scans of profile/packages/consent/src/template.mjs and
-- profile/packages/resolver/src/checks.mjs.
use candid_core.Common.{true, [], ◌∷◌, ◌≡◌, refl}
use candid_core.Format.Chars.{Text, codes}
use candid_core.Format.Split.{split_first}
use candid_core.Resolver.Template.{nested, unclosed_brace, scanned, refused, check_template}
use candid_core.Resolver.Template.Ends.{is_ended}
use candid_core.Consent.Template.{part, lit, ph, opt, parse_template}
use candid_core.Consent.Template.Agree.{as_checked, check_template-parse_template}

abbrev send : Text
send = codes "Send {amount}[ with {memo}]"

parse_template_run :
    parse_template send
    ≡ scanned (
        part (lit (codes "Send "))
        ∷ part (ph (codes "amount"))
        ∷ opt (lit (codes " with ") ∷ ph (codes "memo") ∷ [])
        ∷ [])
unfolding parse_template split_first
parse_template_run = refl

parse_template-escaped : parse_template (codes "{{[[") ≡ scanned (part (lit (codes "{[")) ∷ [])
unfolding parse_template
parse_template-escaped = refl

parse_template-nested : parse_template (codes "[a[b]]") ≡ refused nested
unfolding parse_template
parse_template-nested = refl

check_template-unclosed : check_template (codes "to {a") ≡ refused unclosed_brace
unfolding check_template split_first
check_template-unclosed = refl

check_template-parse_template_example :
    (check_template send ≡ as_checked (parse_template send))
    × (is_ended (parse_template send) ≡ true)
check_template-parse_template_example = check_template-parse_template send

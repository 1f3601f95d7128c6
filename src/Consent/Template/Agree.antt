-- ===== src/Consent/Template/Agree.antt =====
-- The two scans of an intent template, profile/packages/consent/src/template.mjs and
-- profile/packages/resolver/src/checks.mjs, round by round and to the end.
use candid_core.Common.{
  ℕ, zero, suc, ◌+◌, Bool, true, false, ◌&&◌, List, [], ◌∷◌, ◌≡◌, refl, sym, ap, ◌∙◌, subst, ◌==◌,
  if◌then◌else◌, length, Option, none, some, append-nil, arith,
}
use candid_core.Format.Chars.{Text}
use candid_core.Format.Split.{split_first}
use candid_core.Resolver.Template.{
  nested, unbalanced_segment, Scanned, scanned, refused, out_of_fuel, Round, go, stop, is_bracket,
  next_is, Placeholder, continue, Seen, opened, closed, add, braced, check_char, checked,
  check_from, check_template,
}
use candid_core.Resolver.Template.Ends.{is_ended, check_template-ended}
use candid_core.Consent.Template.{
  Part, TemplatePart, State, flush, open_segment, close_segment, add_placeholder, parse_char,
  finish, parse_from, start, parse_template, placeholders_of,
}
use candid_core.Consent.Template.Same.{
  segments_of, is_open, seen_of, seen, seen_eq, seen-flush, flush-open, seen-begin, seen-end,
  seen-push-ph,
}

abbrev seen_round : Round State → Round Seen
seen_round (go st s) = go (seen st) s
seen_round (stop e) = stop e

branch :
    (test : Bool) {x y : Round Seen} (x' y' : Round State)
    → x ≡ seen_round x'
    → y ≡ seen_round y'
    → (if test then x else y) ≡ seen_round (if test then x' else y')
branch true x' y' h k = h
branch false x' y' h k = k

abbrev begun : Seen → Seen
begun v = record { placeholders = v.placeholders; depth = true; segments = v.segments + 1 }

abbrev ended : Seen → Seen
ended v = record { placeholders = v.placeholders; depth = false; segments = v.segments }

opened-shut : (v : Seen) (s : Text) → v.depth ≡ false → opened v s ≡ go (begun v) s
opened-shut v s h = rw h refl

opened-open : (v : Seen) (s : Text) → v.depth ≡ true → opened v s ≡ stop nested
opened-open v s h = rw h refl

closed-open : (v : Seen) (s : Text) → v.depth ≡ true → closed v s ≡ go (ended v) s
closed-open v s h = rw h refl

closed-shut : (v : Seen) (s : Text) → v.depth ≡ false → closed v s ≡ stop unbalanced_segment
closed-shut v s h = rw h refl

opens :
    (st : State) (s : Text) (segment : Option (List Part))
    → is_open st.segment ≡ is_open segment
    → opened (seen st) s ≡ seen_round (open_segment segment st s)
unfolding seen
opens st s (some ps) h = opened-open (seen st) s h
opens st s none h =
    let begins = seen-begin (flush st).top (flush st).segment (flush st).text (flush-open st ∙ h) in
    opened-shut (seen st) s h ∙ ap (λ r. go r s) (ap begun (sym (seen-flush st)) ∙ sym begins)

closes :
    (st : State) (s : Text) (segment : Option (List Part))
    → is_open st.segment ≡ is_open segment
    → closed (seen st) s ≡ seen_round (close_segment segment st s)
unfolding seen
closes st s none h = closed-shut (seen st) s h
closes st s (some ps) h =
    let ends = seen-end (flush st).top (flush st).segment (flush st).text (flush-open st ∙ h) in
    closed-open (seen st) s h ∙ ap (λ r. go r s) (ap ended (sym (seen-flush st)) ∙ sym ends)

braces :
    (found : Option (Text × Text)) (st : State)
    → braced found (seen st) ≡ seen_round (add_placeholder found st)
unfolding seen
braces none st = refl
braces (some (path, after)) st =
    let pushed = seen-push-ph path (flush st).top (flush st).segment (flush st).text in
    ap (λ r. go r after) (ap (add path) (sym (seen-flush st)) ∙ sym pushed)

check_char-seen :
    (c : ℕ) (s : Text) (st : State) → check_char c s (seen st) ≡ seen_round (parse_char c s st)
unfolding check_char parse_char seen
check_char-seen c s st = branch (is_bracket c && next_is c s) _ _ refl (
    branch (c == b'[') _ _ (opens st s st.segment refl) (
      branch (c == b']') _ _ (closes st s st.segment refl) (
        branch (c == b'{') _ _ (braces (split_first b'}' s) st)
          (branch (c == b'}') _ _ refl refl))))

-- What the resolver has of a parsed template.
abbrev pub as_checked : Scanned (List TemplatePart) → Scanned (List Placeholder × ℕ)
as_checked (scanned parts) = scanned (placeholders_of parts, segments_of parts)
as_checked (refused e) = refused e
as_checked out_of_fuel = out_of_fuel

scanned_of : Seen → Scanned (List Placeholder × ℕ)
scanned_of v = scanned (v.placeholders, v.segments)

checked-shut : (v : Seen) → v.depth ≡ false → checked v ≡ scanned_of v
unfolding scanned_of
checked-shut v h = rw h refl

shut_parts :
    (top : List TemplatePart) (segment : Option (List Part))
    → is_open segment ≡ false
    → scanned_of (seen_of top segment) ≡ as_checked (scanned top)
unfolding scanned_of
shut_parts top none h =
    ap scanned_of (seen_eq {b = false} (append-nil (placeholders_of top)) (omega arith))
shut_parts top (some ps) h = cc

checked-seen :
    (st : State) (segment : Option (List Part))
    → is_open st.segment ≡ is_open segment
    → checked (seen st) ≡ as_checked (finish segment st)
unfolding seen
checked-seen st (some ps) h = rw h refl
checked-seen st none h =
    checked-shut (seen st) h
    ∙ ap scanned_of (sym (seen-flush st))
    ∙ shut_parts (flush st).top (flush st).segment (flush-open st ∙ h)

continued :
    (r : Round State) (fuel : ℕ)
    → ((s : Text) (st : State) → check_from fuel s (seen st) ≡ as_checked (parse_from fuel s st))
    → continue (seen_round r) (λ st' s'. check_from fuel s' st')
      ≡ as_checked (continue r (λ st' s'. parse_from fuel s' st'))
continued (stop e) fuel later = refl
continued (go st s) fuel later = later s st

check_from-parse_from :
    (fuel : ℕ) (s : Text) (st : State)
    → check_from fuel s (seen st) ≡ as_checked (parse_from fuel s st)
unfolding check_from parse_from
check_from-parse_from zero s st = refl
check_from-parse_from (suc fuel) [] st = checked-seen st st.segment refl
check_from-parse_from (suc fuel) (c ∷ s) st =
    ap (λ r. continue r (λ st' s'. check_from fuel s' st')) (check_char-seen c s st)
    ∙ continued (parse_char c s st) fuel (check_from-parse_from fuel)

checked_same : (t : Text) → check_template t ≡ as_checked (parse_template t)
unfolding check_template parse_template seen placeholders_of segments_of
checked_same t = check_from-parse_from (length t + 1) t start

as_checked-ended :
    (r : Scanned (List TemplatePart)) → is_ended (as_checked r) ≡ true → is_ended r ≡ true
as_checked-ended (scanned parts) h = refl
as_checked-ended (refused e) h = refl
as_checked-ended out_of_fuel h = h

-- On every text both scans of a template end. The resolver's refuses what the consent one refuses, for
-- the same reason, and otherwise has the placeholders and the number of optional segments of the parts
-- that the other gives.
pub check_template-parse_template :
    (t : Text)
    → (check_template t ≡ as_checked (parse_template t)) × (is_ended (parse_template t) ≡ true)
check_template-parse_template t = (
  checked_same t,
  as_checked-ended (parse_template t)
      (subst (λ r. is_ended r ≡ true) (checked_same t) (check_template-ended t)),
)

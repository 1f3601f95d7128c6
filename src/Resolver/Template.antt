-- ===== src/Resolver/Template.antt =====
-- `parseTemplate` of profile/packages/resolver/src/checks.mjs: the placeholders of an intent template,
-- and how many optional segments it has.
pub mod Ends
use candid_core.Common.{
  ℕ, zero, suc, ◌+◌, Bool, true, false, not, ◌&&◌, ◌||◌, List, [], ◌∷◌, ◌++◌, ◌==◌, if◌then◌else◌,
  length, Option, none, some,
}
use candid_core.Format.Chars.{Text}
use candid_core.Format.Split.{split_first}

pub data TemplateError : Type 0 where
  nested unbalanced_segment unclosed_segment unbalanced_brace unclosed_brace : TemplateError

pub data Scanned (A : Type 0) : Type 0 where
  scanned : A → Scanned A
  refused : TemplateError → Scanned A
  out_of_fuel : Scanned A

-- A round of the loop: the state and the text behind it, or a refusal.
pub data Round (S : Type 0) : Type 0 where
  go : S → Text → Round S
  stop : TemplateError → Round S

abbrev pub is_bracket : ℕ → Bool
is_bracket c = c == b'{' || c == b'}' || c == b'[' || c == b']'

-- `t[i + 1] === c`
abbrev pub next_is : ℕ → Text → Bool
next_is c [] = false
next_is c (d ∷ s) = d == c

abbrev pub tail : Text → Text
tail [] = []
tail (c ∷ s) = s

pub record Placeholder : Type 0 where
  pub path : Text
  pub in_optional : Bool

-- The variables of the loop.
pub record Seen : Type 0 where
  pub placeholders : List Placeholder
  pub depth : Bool
  pub segments : ℕ

abbrev pub opened : Seen → Text → Round Seen
opened st s =
    if st.depth
    then stop nested
    else go (record { placeholders = st.placeholders; depth = true; segments = st.segments + 1 }) s

abbrev pub closed : Seen → Text → Round Seen
closed st s =
    if st.depth
    then go (record { placeholders = st.placeholders; depth = false; segments = st.segments }) s
    else stop unbalanced_segment

abbrev pub add : Text → Seen → Seen
add path st = record {
  placeholders = st.placeholders ++ record { path = path; in_optional = st.depth } ∷ [];
  depth = st.depth;
  segments = st.segments;
}

abbrev pub braced : Option (Text × Text) → Seen → Round Seen
braced none st = stop unclosed_brace
braced (some (path, after)) st = go (add path st) after

unfoldable pub check_char : ℕ → Text → Seen → Round Seen
check_char c s st =
    if is_bracket c && next_is c s
    then go st (tail s)
    else if c == b'['
    then opened st s
    else if c == b']'
    then closed st s
    else if c == b'{'
    then braced (split_first b'}' s) st
    else if c == b'}'
    then stop unbalanced_brace
    else go st s

abbrev pub continue : {S A : Type 0} → Round S → (S → Text → Scanned A) → Scanned A
continue (stop e) next = refused e
continue (go st s) next = next st s

abbrev pub checked : Seen → Scanned (List Placeholder × ℕ)
checked st = if st.depth then refused unclosed_segment else scanned (st.placeholders, st.segments)

-- The loop, a round for each unit of fuel; the last finds the end.
unfoldable pub check_from : ℕ → Text → Seen → Scanned (List Placeholder × ℕ)
unfolding check_char
check_from zero s st = out_of_fuel
check_from (suc fuel) [] st = checked st
check_from (suc fuel) (c ∷ s) st = continue (check_char c s st) (λ st' s'. check_from fuel s' st')

abbrev pub nothing_seen : Seen
nothing_seen = record { placeholders = []; depth = false; segments = 0 }

unfoldable pub check_template : Text → Scanned (List Placeholder × ℕ)
unfolding check_from
check_template t = check_from (length t + 1) t nothing_seen

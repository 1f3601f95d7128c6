-- ===== src/Consent/Template.antt =====
-- profile/packages/consent/src/template.mjs: the parts of an intent template.
pub mod Same
pub mod Agree
pub mod Tests
use candid_core.Common.{
  ℕ, zero, suc, ◌+◌, Bool, true, false, not, ◌&&◌, ◌||◌, List, [], ◌∷◌, ◌++◌, ◌==◌, if◌then◌else◌,
  length, Option, none, some,
}
use candid_core.Format.Chars.{Text}
use candid_core.Format.Split.{split_first}
use candid_core.Resolver.Template.{
  TemplateError, nested, unbalanced_segment, unclosed_segment, unbalanced_brace, unclosed_brace,
  Scanned, scanned, refused, out_of_fuel, Round, go, stop, is_bracket, next_is, tail, Placeholder,
  continue,
}

pub data Part : Type 0 where
  lit : Text → Part
  ph : Text → Part

pub data TemplatePart : Type 0 where
  part : Part → TemplatePart
  opt : List Part → TemplatePart

-- The variables of the loop.
pub record State : Type 0 where
  pub top : List TemplatePart
  pub segment : Option (List Part)
  pub text : Text

-- `target().push(p)`
abbrev pub push_to : Option (List Part) → Part → State → State
push_to none p st = record { top = st.top ++ part p ∷ []; segment = none; text = st.text }
push_to (some ps) p st = record { top = st.top; segment = some (ps ++ p ∷ []); text = st.text }

unfoldable pub push : Part → State → State
push p st = push_to st.segment p st

abbrev pub clear : State → State
clear st = record { top = st.top; segment = st.segment; text = [] }

abbrev pub push_text : Text → State → State
push_text [] st = st
push_text (c ∷ s) st = push (lit (c ∷ s)) st

unfoldable pub flush : State → State
unfolding push
flush st = clear (push_text st.text st)

abbrev pub add_char : ℕ → State → State
add_char c st = record { top = st.top; segment = st.segment; text = st.text ++ c ∷ [] }

abbrev pub begin_segment : State → State
begin_segment st = record { top = st.top; segment = some []; text = st.text }

abbrev pub open_segment : Option (List Part) → State → Text → Round State
open_segment (some ps) st s = stop nested
open_segment none st s = go (begin_segment (flush st)) s

abbrev pub parts_of : Option (List Part) → List Part
parts_of none = []
parts_of (some ps) = ps

abbrev pub end_segment : State → State
end_segment st = record {
  top = st.top ++ opt (parts_of st.segment) ∷ [];
  segment = none;
  text = st.text;
}

abbrev pub close_segment : Option (List Part) → State → Text → Round State
close_segment none st s = stop unbalanced_segment
close_segment (some ps) st s = go (end_segment (flush st)) s

abbrev pub add_placeholder : Option (Text × Text) → State → Round State
add_placeholder none st = stop unclosed_brace
add_placeholder (some (path, after)) st = go (push (ph path) (flush st)) after

unfoldable pub parse_char : ℕ → Text → State → Round State
unfolding flush push
parse_char c s st =
    if is_bracket c && next_is c s
    then go (add_char c st) (tail s)
    else if c == b'['
    then open_segment st.segment st s
    else if c == b']'
    then close_segment st.segment st s
    else if c == b'{'
    then add_placeholder (split_first b'}' s) st
    else if c == b'}'
    then stop unbalanced_brace
    else go (add_char c st) s

abbrev pub finish : Option (List Part) → State → Scanned (List TemplatePart)
finish (some ps) st = refused unclosed_segment
finish none st = scanned (flush st).top

-- The loop, a round for each unit of fuel; the last finds the end.
unfoldable pub parse_from : ℕ → Text → State → Scanned (List TemplatePart)
unfolding parse_char flush
parse_from zero s st = out_of_fuel
parse_from (suc fuel) [] st = finish st.segment st
parse_from (suc fuel) (c ∷ s) st = continue (parse_char c s st) (λ st' s'. parse_from fuel s' st')

abbrev pub start : State
start = record { top = []; segment = none; text = [] }

unfoldable pub parse_template : Text → Scanned (List TemplatePart)
unfolding parse_from
parse_template t = parse_from (length t + 1) t start

abbrev pub in_segment : List Part → List Placeholder
in_segment [] = []
in_segment (lit s ∷ ps) = in_segment ps
in_segment (ph path ∷ ps) = record { path = path; in_optional = true } ∷ in_segment ps

unfoldable pub placeholders_of : List TemplatePart → List Placeholder
placeholders_of [] = []
placeholders_of (part (lit s) ∷ ps) = placeholders_of ps
placeholders_of (part (ph path) ∷ ps) =
    record { path = path; in_optional = false } ∷ placeholders_of ps
placeholders_of (opt qs ∷ ps) = in_segment qs ++ placeholders_of ps

-- ===== src/Resolver/Address.antt =====
-- The grammar of addresses, `parsePath`, `parseAddress` and `parseRelPath` of
-- profile/packages/resolver/src/address.mjs, with `idlHash` of idl.mjs and `resolveRel` of iface.mjs.
pub mod Whole
pub mod Fuel
pub mod Tests
use candid_core.Common.{
  ℕ, zero, suc, ◌+◌, ◌-◌, ◌*◌, ◌%◌, ◌^◌, Bool, true, false, not, ◌&&◌, ◌||◌, List, [], ◌∷◌, ◌++◌,
  ltb, leb, ◌==◌, if◌then◌else◌, length, all, map, take, drop, Option, none, some, text_eq,
  get_elem?,
}
use candid_core.Format.Chars.{Text, between, is_digit, codes, code_points}
use candid_core.Format.Decimal.{value}
use candid_core.Format.Bytes.Utf8.{utf8_encode}
use candid_core.Resolver.Graph.{Iface}
use candid_core.Resolver.Service.{Entry, get_entry}
use candid_core.Resolver.Walk.{
  Seg, elem, field, Address, type_at, method_at, arg_at, result_at, Outcome, returns, throws,
  endless, Walked, reached, bad, WalkError, walk, method_key, Parent,
}

-- Math.imul(h, 223) + b, as an unsigned word.
abbrev hash_from : ℕ → List ℕ → ℕ
hash_from h [] = h
hash_from h (b ∷ bytes) = hash_from ((h * 223 + b) % 2 ^ 32) bytes

-- TextEncoder writes U+FFFD for a surrogate that stands alone.
abbrev scalar : ℕ → ℕ
scalar c = if between 0xd800 0xdfff c then 0xfffd else c

unfoldable pub idl_hash : Text → ℕ
idl_hash label = hash_from 0 (utf8_encode (map scalar (code_points label)))

abbrev pub is_letter : ℕ → Bool
is_letter c = between b'A' b'Z' c || between b'a' b'z' c || c == b'_'

abbrev pub is_word : ℕ → Bool
is_word c = is_letter c || is_digit c

-- The longest start whose characters pass, and the rest.
abbrev cons_start : ℕ → Text × Text → Text × Text
cons_start c p = (c ∷ p.0, p.1)

unfoldable pub span : (ℕ → Bool) → Text → Text × Text
span p [] = ([], [])
span p (c ∷ s) = if p c then cons_start c (span p s) else ([], c ∷ s)

-- IDENT, at the start of a text.
unfoldable pub match_ident : Text → Option (Text × Text)
unfolding span
match_ident [] = none
match_ident (c ∷ s) = if is_letter c then some (span is_word (c ∷ s)) else none

-- NUMID without its #: 0, or up to ten digits, the first of them no 0.
abbrev ten_digits : Text × Text → Text × Text
ten_digits p = (take 10 p.0, drop 10 p.0 ++ p.1)

unfoldable pub match_digits : Text → Option (Text × Text)
unfolding span
match_digits [] = none
match_digits (c ∷ s) =
    if c == b'0'
    then some (b'0' ∷ [], s)
    else if is_digit c
    then some (ten_digits (span is_digit (c ∷ s)))
    else none

abbrev named_seg : Option (Text × Text) → Option (Seg × Text)
named_seg none = none
named_seg (some (label, rest)) = some (field label (idl_hash label), rest)

-- U32_MAX
abbrev pub u32_max : ℕ
u32_max = 4294967295

abbrev numbered_seg : Option (Text × Text) → Option (Seg × Text)
numbered_seg none = none
numbered_seg (some (digits, rest)) =
    if ltb u32_max (value digits) then none else some (field (b'#' ∷ digits) (value digits), rest)

abbrev label_seg : Text → Option (Seg × Text)
label_seg [] = none
label_seg (c ∷ s) =
    if c == b'#' then numbered_seg (match_digits s) else named_seg (match_ident (c ∷ s))

-- SEG_RE at the start of a text, and the segment it stands for.
unfoldable pub match_seg : Text → Option (Seg × Text)
unfolding match_ident match_digits idl_hash
match_seg [] = none
match_seg (c ∷ s) =
    if c == b'.'
    then label_seg s
    else if c == b'[' && text_eq (take 1 s) (codes "]")
    then some (elem, drop 1 s)
    else none

abbrev cons_seg : Seg → Option (List Seg) → Option (List Seg)
cons_seg seg none = none
cons_seg seg (some segs) = some (seg ∷ segs)

abbrev then_segs : (Text → Option (List Seg)) → Option (Seg × Text) → Option (List Seg)
then_segs next none = none
then_segs next (some (seg, rest)) = cons_seg seg (next rest)

-- The loop, a round for each unit of fuel; every segment takes a character.
unfoldable pub parse_from : ℕ → Text → Option (List Seg)
unfolding match_seg
parse_from fuel [] = some []
parse_from zero (c ∷ s) = none
parse_from (suc fuel) (c ∷ s) = then_segs (parse_from fuel) (match_seg (c ∷ s))

unfoldable pub parse_path : Text → Option (List Seg)
unfolding parse_from
parse_path str = parse_from (length str) str

-- /\((\d+)\)/ at the start of a text: an index, and the rest.
abbrev close_index : Text × Text → Option (ℕ × Text)
close_index p =
    if not (text_eq p.0 []) && text_eq (take 1 p.1) (codes ")")
    then some (value p.0, drop 1 p.1)
    else none

unfoldable pub match_index : Text → Option (ℕ × Text)
unfolding span
match_index [] = none
match_index (c ∷ s) = if c == b'(' then close_index (span is_digit s) else none

-- `.` matches no line terminator.
abbrev is_line : ℕ → Bool
is_line c = not (c == 10 || c == 13 || c == 0x2028 || c == 0x2029)

abbrev pub line : Text → Bool
line s = all is_line s

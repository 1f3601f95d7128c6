-- ===== src/Resolver/Parts.antt =====
-- What each rule of profile/packages/resolver/src/subtype.mjs asks of the parts of two nodes.
use candid_core.Common.{
  ℕ, ◌+◌, Bool, true, false, ◌&&◌, ◌||◌, List, [], ◌∷◌, ◌++◌, ◌==◌, ltb, if◌then◌else◌, Option,
  none, some, text_eq,
}
use candid_core.Format.Chars.{Text, codes}
use candid_core.Format.Decimal.{nat_to_string}
use candid_core.Resolver.Graph.{Field, Method, Iface, field_name, is_null_like}
use candid_core.Resolver.Checker.{
  Mode, strict, relaxed, Query, Segments, Reason, missing_field, missing_case, missing_argument,
  missing_result, missing_method,
}

-- `new Map(fields.map((f) => [f.id, f.type])).get(id)`: the last field of that id.
abbrev or_last : Option ℕ → Bool → ℕ → Option ℕ
or_last (some later) here type = some later
or_last none here type = if here then some type else none

unfoldable pub field_type : List Field → ℕ → Option ℕ
field_type [] id = none
field_type (f ∷ fs) id = or_last (field_type fs id) (f.id == id) f.type

unfoldable pub method_function : List Method → Text → Option ℕ
method_function [] name = none
method_function (m ∷ ms) name = or_last (method_function ms name) (text_eq m.name name) m.function

-- What a rule asks for one of its parts, in order: a further query, nothing, or a failure.
pub data Part : Type 0 where
  ask : Query → Segments → Part
  pass crash : Part
  refuse : Segments → Reason → Part

-- `extra.sort()`: by code units.
abbrev text_leb : Text → Text → Bool
text_leb [] b = true
text_leb (x ∷ a) [] = false
text_leb (x ∷ a) (y ∷ b) = ltb x y || (x == y && text_leb a b)

abbrev insert_label : Text → List Text → List Text
insert_label l [] = l ∷ []
insert_label l (m ∷ ms) = if text_leb l m then l ∷ m ∷ ms else m ∷ insert_label l ms

unfoldable pub sort_labels : List Text → List Text
sort_labels [] = []
sort_labels (l ∷ ls) = insert_label l (sort_labels ls)

-- What stands for a part that the other side lacks: it may be left out where it is null-like.
abbrev pub absent : Option Bool → Segments → Reason → Part
absent none path reason = crash
absent (some true) path reason = pass
absent (some false) path reason = refuse path reason

abbrev pub step : Segments → Text → Segments
step path segment = path ++ (segment ∷ [])

abbrev pub parens : ℕ → Text
parens i = b'(' ∷ (nat_to_string i ++ codes ")")

abbrev pub arrow : ℕ → Text
arrow i = codes "->" ++ parens i

module _ (ifaces : ℕ → Iface) where
  abbrev pub record_part : Query → Segments → Field → Option ℕ → Part
  record_part q path f (some s) =
      ask (record { source = q.source; s = s; target = q.target; t = f.type; mode = q.mode })
        (step path (b'.' ∷ field_name (ifaces q.target) q.t f.id))
  record_part q path f none = absent (is_null_like (ifaces q.target) f.type) path missing_field

  unfoldable pub record_parts : Query → Segments → List Field → List Field → List Part
  record_parts q path have [] = []
  record_parts q path have (f ∷ fs) =
      record_part q path f (field_type have f.id) ∷ record_parts q path have fs

  abbrev pub missing : Mode → Segments → Part
  missing relaxed path = pass
  missing strict path = refuse path missing_case

  abbrev pub variant_part : Query → Segments → Field → Option ℕ → Part
  variant_part q path f (some t) =
      ask (record { source = q.source; s = f.type; target = q.target; t = t; mode = q.mode })
        (step path (b'.' ∷ field_name (ifaces q.source) q.s f.id))
  variant_part q path f none = missing q.mode path

  unfoldable pub variant_parts : Query → Segments → List Field → List Field → List Part
  variant_parts q path have [] = []
  variant_parts q path have (f ∷ fs) =
      variant_part q path f (field_type have f.id) ∷ variant_parts q path have fs

  -- The labels of the cases that `have` lacks.
  abbrev keep_label : Option ℕ → Text → List Text → List Text
  keep_label none label rest = label ∷ rest
  keep_label (some t) label rest = rest

  unfoldable pub extra_labels : Query → List Field → List Field → List Text
  extra_labels q have [] = []
  extra_labels q have (f ∷ fs) =
      keep_label (field_type have f.id) (field_name (ifaces q.source) q.s f.id)
        (extra_labels q have fs)

  -- A loop over the positions of a tuple: the types `needed` on one side, each met by the `given` of
  -- the other, from position `i`.
  unfoldable pub tuple_parts :
      (given_at needed_at : ℕ) (named : ℕ → Segments)
      → Segments
      → Reason
      → ℕ
      → List ℕ
      → List ℕ
      → List Part
  tuple_parts given_at needed_at named path reason i [] given = []
  tuple_parts given_at needed_at named path reason i (n ∷ needed) [] =
      absent (is_null_like (ifaces needed_at) n) path reason
      ∷ tuple_parts given_at needed_at named path reason (i + 1) needed []
  tuple_parts given_at needed_at named path reason i (n ∷ needed) (g ∷ given) =
      ask (record { source = given_at; s = g; target = needed_at; t = n; mode = strict }) (named i)
      ∷ tuple_parts given_at needed_at named path reason (i + 1) needed given

  unfoldable pub func_parts : Query → Segments → List ℕ → List ℕ → List ℕ → List ℕ → List Part
  unfolding tuple_parts
  func_parts q path s_args s_results t_args t_results =
      tuple_parts q.target q.source (λ i. step path (parens i)) path missing_argument 0 s_args
        t_args
      ++ tuple_parts q.source q.target (λ i. step path (arrow i)) path missing_result 0 t_results
          s_results

  abbrev pub method_part : Query → Segments → Method → Option ℕ → Part
  method_part q path m (some s) =
      ask (record { source = q.source; s = s; target = q.target; t = m.function; mode = strict })
        (step path m.name)
  method_part q path m none = refuse path missing_method

  unfoldable pub service_parts : Query → Segments → List Method → List Method → List Part
  service_parts q path have [] = []
  service_parts q path have (m ∷ ms) =
      method_part q path m (method_function have m.name) ∷ service_parts q path have ms

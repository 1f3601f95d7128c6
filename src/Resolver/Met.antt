-- ===== src/Resolver/Met.antt =====
-- What the parts of Parts.antt ask is what the rules of Rules.antt ask, both ways.
use candid_core.Common.{
  ℕ, ◌+◌, ◌≡◌, refl, true, false, List, [], ◌∷◌, ◌++◌, none, some, All, All-append, Option, Bool,
}
use candid_core.Resolver.Graph.{Field, Method, Iface, is_null_like}
use candid_core.Resolver.Checker.{
  Mode, strict, relaxed, Query, Segments, Reason, missing_field, missing_argument, missing_result,
}
use candid_core.Resolver.Parts.{
  Part, ask, pass, crash, refuse, absent, record_part, record_parts, missing, variant_part,
  variant_parts, tuple_parts, func_parts, method_part, service_parts, field_type, method_function,
}
use candid_core.Resolver.Rules.{
  FieldHeld, present, left_out, CaseHeld, extra, TupleHeld, MethodHeld,
}

-- A part holds: what it asks is related, or there is nothing to ask.
abbrev pub Met : (Query → Type 0) → Part → Type 0
Met R (ask q path) = R q
Met R pass = Unit
Met R crash = ⊥
Met R (refuse path reason) = ⊥

absent-Met :
    (R : Query → Type 0) (answer : Option Bool) (path : Segments) (reason : Reason)
    → Met R (absent answer path reason)
    → answer ≡ some true
absent-Met R none path reason h = elim h [ ]
absent-Met R (some true) path reason h = refl
absent-Met R (some false) path reason h = elim h [ ]

Met-absent :
    (R : Query → Type 0) (answer : Option Bool) (path : Segments) (reason : Reason)
    → answer ≡ some true
    → Met R (absent answer path reason)
Met-absent R answer path reason h = rw h tt

module _ (ifaces : ℕ → Iface) (R : Query → Type 0) where
  record_part-Met :
      (q : Query) (path : Segments) (have : List Field) (f : Field) (found : Option ℕ)
      → field_type have f.id ≡ found
      → Met R (record_part ifaces q path f found)
      → FieldHeld ifaces R q have f
  record_part-Met q path have f (some s) e h = present s e h
  record_part-Met q path have f none e h =
      left_out e (absent-Met R (is_null_like (ifaces q.target) f.type) path missing_field h)

  Met-record_part :
      (q : Query) (path : Segments) (have : List Field) (f : Field)
      → FieldHeld ifaces R q have f
      → Met R (record_part ifaces q path f (field_type have f.id))
  Met-record_part q path have f (present s e r) = rw e r
  Met-record_part q path have f (left_out e n) =
      rw e (Met-absent R (is_null_like (ifaces q.target) f.type) path missing_field n)

  pub record_parts-Met :
      (q : Query) (path : Segments) (have fs : List Field)
      → All (Met R) (record_parts ifaces q path have fs)
      → All (FieldHeld ifaces R q have) fs
  unfolding record_parts
  record_parts-Met q path have [] h = tt
  record_parts-Met q path have (f ∷ fs) h = (
    record_part-Met q path have f (field_type have f.id) refl h.0,
    record_parts-Met q path have fs h.1,
  )

  pub Met-record_parts :
      (q : Query) (path : Segments) (have fs : List Field)
      → All (FieldHeld ifaces R q have) fs
      → All (Met R) (record_parts ifaces q path have fs)
  unfolding record_parts
  Met-record_parts q path have [] h = tt
  Met-record_parts q path have (f ∷ fs) h =
      (Met-record_part q path have f h.0, Met-record_parts q path have fs h.1)

  missing-Met : (mode : Mode) (path : Segments) → Met R (missing ifaces mode path) → mode ≡ relaxed
  missing-Met relaxed path h = refl
  missing-Met strict path h = elim h [ ]

  variant_part-Met :
      (q : Query) (path : Segments) (have : List Field) (f : Field) (found : Option ℕ)
      → field_type have f.id ≡ found
      → Met R (variant_part ifaces q path f found)
      → CaseHeld ifaces R q have f
  variant_part-Met q path have f (some t) e h = present t e h
  variant_part-Met q path have f none e h = extra e (missing-Met q.mode path h)

  Met-variant_part :
      (q : Query) (path : Segments) (have : List Field) (f : Field)
      → CaseHeld ifaces R q have f
      → Met R (variant_part ifaces q path f (field_type have f.id))
  Met-variant_part q path have f (present s e r) = rw e r
  Met-variant_part q path have f (extra e n) = rw (e, n) tt

  pub variant_parts-Met :
      (q : Query) (path : Segments) (have fs : List Field)
      → All (Met R) (variant_parts ifaces q path have fs)
      → All (CaseHeld ifaces R q have) fs
  unfolding variant_parts
  variant_parts-Met q path have [] h = tt
  variant_parts-Met q path have (f ∷ fs) h = (
    variant_part-Met q path have f (field_type have f.id) refl h.0,
    variant_parts-Met q path have fs h.1,
  )

  pub Met-variant_parts :
      (q : Query) (path : Segments) (have fs : List Field)
      → All (CaseHeld ifaces R q have) fs
      → All (Met R) (variant_parts ifaces q path have fs)
  unfolding variant_parts
  Met-variant_parts q path have [] h = tt
  Met-variant_parts q path have (f ∷ fs) h =
      (Met-variant_part q path have f h.0, Met-variant_parts q path have fs h.1)

  tuple_parts-Met :
      (given_at needed_at : ℕ) (named : ℕ → Segments) (path : Segments) (reason : Reason) (i : ℕ)
      (needed given : List ℕ)
      → All (Met R) (tuple_parts ifaces given_at needed_at named path reason i needed given)
      → TupleHeld ifaces R given_at needed_at needed given
  unfolding tuple_parts
  tuple_parts-Met given_at needed_at named path reason i [] given h = tt
  tuple_parts-Met given_at needed_at named path reason i (n ∷ needed) [] h = (
    absent-Met R (is_null_like (ifaces needed_at) n) path reason h.0,
    tuple_parts-Met given_at needed_at named path reason (i + 1) needed [] h.1,
  )
  tuple_parts-Met given_at needed_at named path reason i (n ∷ needed) (g ∷ given) h =
      (h.0, tuple_parts-Met given_at needed_at named path reason (i + 1) needed given h.1)

  Met-tuple_parts :
      (given_at needed_at : ℕ) (named : ℕ → Segments) (path : Segments) (reason : Reason) (i : ℕ)
      (needed given : List ℕ)
      → TupleHeld ifaces R given_at needed_at needed given
      → All (Met R) (tuple_parts ifaces given_at needed_at named path reason i needed given)
  unfolding tuple_parts
  Met-tuple_parts given_at needed_at named path reason i [] given h = tt
  Met-tuple_parts given_at needed_at named path reason i (n ∷ needed) [] h = (
    Met-absent R (is_null_like (ifaces needed_at) n) path reason h.0,
    Met-tuple_parts given_at needed_at named path reason (i + 1) needed [] h.1,
  )
  Met-tuple_parts given_at needed_at named path reason i (n ∷ needed) (g ∷ given) h =
      (h.0, Met-tuple_parts given_at needed_at named path reason (i + 1) needed given h.1)

  All-split : (ps qs : List Part) → All (Met R) (ps ++ qs) → All (Met R) ps × All (Met R) qs
  All-split [] qs h = (tt, h)
  All-split (p ∷ ps) qs h = let (front, back) = All-split ps qs h.1 in ((h.0, front), back)

  pub func_parts-Met :
      (q : Query) (path : Segments) (s_args s_results t_args t_results : List ℕ)
      → All (Met R) (func_parts ifaces q path s_args s_results t_args t_results)
      → TupleHeld ifaces R q.target q.source s_args t_args
        × TupleHeld ifaces R q.source q.target t_results s_results
  unfolding func_parts
  func_parts-Met q path s_args s_results t_args t_results h =
      let (args, results) = All-split _ _ h in
      (
        tuple_parts-Met q.target q.source _ path missing_argument 0 s_args t_args args,
        tuple_parts-Met q.source q.target _ path missing_result 0 t_results s_results results,
      )

  pub Met-func_parts :
      (q : Query) (path : Segments) (s_args s_results t_args t_results : List ℕ)
      → TupleHeld ifaces R q.target q.source s_args t_args
      → TupleHeld ifaces R q.source q.target t_results s_results
      → All (Met R) (func_parts ifaces q path s_args s_results t_args t_results)
  unfolding func_parts
  Met-func_parts q path s_args s_results t_args t_results args results =
      All-append (Met R) _ _
        (Met-tuple_parts q.target q.source _ path missing_argument 0 s_args t_args args)
        (Met-tuple_parts q.source q.target _ path missing_result 0 t_results s_results results)

  method_part-Met :
      (q : Query) (path : Segments) (have : List Method) (m : Method) (found : Option ℕ)
      → method_function have m.name ≡ found
      → Met R (method_part ifaces q path m found)
      → MethodHeld ifaces R q have m
  method_part-Met q path have m (some s) e h = present s e h
  method_part-Met q path have m none e h = elim h [ ]

  Met-method_part :
      (q : Query) (path : Segments) (have : List Method) (m : Method)
      → MethodHeld ifaces R q have m
      → Met R (method_part ifaces q path m (method_function have m.name))
  Met-method_part q path have m (present s e r) = rw e r

  pub service_parts-Met :
      (q : Query) (path : Segments) (have ms : List Method)
      → All (Met R) (service_parts ifaces q path have ms)
      → All (MethodHeld ifaces R q have) ms
  unfolding service_parts
  service_parts-Met q path have [] h = tt
  service_parts-Met q path have (m ∷ ms) h = (
    method_part-Met q path have m (method_function have m.name) refl h.0,
    service_parts-Met q path have ms h.1,
  )

  pub Met-service_parts :
      (q : Query) (path : Segments) (have ms : List Method)
      → All (MethodHeld ifaces R q have) ms
      → All (Met R) (service_parts ifaces q path have ms)
  unfolding service_parts
  Met-service_parts q path have [] h = tt
  Met-service_parts q path have (m ∷ ms) h =
      (Met-method_part q path have m h.0, Met-service_parts q path have ms h.1)

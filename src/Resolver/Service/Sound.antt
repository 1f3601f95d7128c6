-- ===== src/Resolver/Service/Sound.antt =====
-- `matchService` and `typeSubtype` of profile/packages/resolver/src/subtype.mjs say ok only where the canister's
-- methods can stand for the fragment's.
use candid_core.Resolver.Kinds.{func_mode_code-injective}
use candid_core.Resolver.Subtype.Sound.{sub-SubtypeIn}
use candid_core.Resolver.Subtype.{sub, func_mode_code}
use candid_core.Resolver.Rules.Strict.{SubtypeIn}
use candid_core.Resolver.Checker.{
  Mode, Reason, Options, Checker, Query, Answer, missing_method, holds, strict, fails, fresh,
  thrown, other_mode, out_of_fuel, missing_argument, missing_result, new_checker,
}
use candid_core.Format.Chars.{Text}
use candid_core.Resolver.Graph.{Iface, is_null_like}
use mathlib.Core.Option.{none-ne-some, some-injective}
use candid_core.Common.{
  ℕ, suc, ◌+◌, Bool, true, false, List, [], ◌∷◌, ◌++◌, ◌≡◌, ◌≢◌, refl, ap, inl, inr, ◌==◌, ==_iff,
  length, All, Option, none, some, Bool-cases,
}
use candid_core.Resolver.Service.{
  positions, run, Iface, Text, Progress, Checker, Note, Mode, Reason, Options, Side, Entry,
  add_note, and_then, absent_note, match_method, match_methods, get_entry, settle, sub,
  func_mode_code, match_service, type_subtype, Match, subtype_result, match_result,
}

-- A tuple given for a tuple needed: each position a subtype in the mode, or left out where that is
-- allowed.
abbrev pub Positions :
    (ℕ → Iface) → (given_at needed_at : ℕ) → Mode → (needed given : List ℕ) → Type 1
Positions ifaces given_at needed_at mode [] given = Unit {1}
Positions ifaces given_at needed_at mode (n ∷ needed) [] =
    (is_null_like (ifaces needed_at) n ≡ some true)
    × Positions ifaces given_at needed_at mode needed []
Positions ifaces given_at needed_at mode (n ∷ needed) (g ∷ given) =
    SubtypeIn mode ifaces
      (record { source = given_at; s = g; target = needed_at; t = n; mode = mode })
    × Positions ifaces given_at needed_at mode needed given

-- A method of the fragment is met by the canister: by a method of its name and mode that takes the
-- fragment's arguments and gives the fragment's results.
pub record IsMet (ifaces : ℕ → Iface) (canister fragment : Side) (mode : Mode) (fm : Entry)
    : Type 1 where
  pub cm : Entry
  pub found : get_entry canister.methods fm.name ≡ some cm
  pub same_mode : cm.mode ≡ fm.mode
  pub args : Positions ifaces fragment.number canister.number strict cm.args fm.args
  pub results : Positions ifaces canister.number fragment.number mode fm.results cm.results

no_end : {A : Type 0} (xs : List A) (x : A) → xs ++ (x ∷ []) ≢ []
no_end [] x h = cc
no_end (y ∷ ys) x h = cc

add_note-clean :
    (at : Text) (reason : Reason) (c d : Checker) (notes : List Note)
    → add_note at reason (c, notes) ≡ some (d, [])
    → ⊥
add_note-clean at reason c d notes h =
    no_end notes (record { at = at; reason = reason })
      (ap (λ (p : Checker × List Note). p.1) (some-injective _ _ h))

settle-clean :
    (before : ℕ) (at : Text) (notes : List Note) (a : Answer) (d : Checker)
    → settle before at notes a ≡ some (d, [])
    → (notes ≡ []) × (a ≡ (holds, d))
settle-clean before at notes (holds, c) d h =
    let both = some-injective _ _ h in
    (
      ap (λ (p : Checker × List Note). p.1) both,
      ap (λ (p : Checker × List Note). (holds, p.0)) both,
    )
settle-clean before at notes (thrown, c) d h = absurd (none-ne-some _ h)
settle-clean before at notes (out_of_fuel, c) d h = absurd (none-ne-some _ h)
settle-clean before at notes (fails path reason, c) d h =
    absurd (add_note-clean _ reason _ d notes h)

-- If nothing was noted in the end, nothing was noted in the first part, nor before.
and_then-clean {ℓ κ} :
    (m : Progress) (rest : Checker × List Note → Progress) (notes : List Note) (d : Checker)
    {A : Type ℓ} {B : Type κ}
    → ((e : Checker) → m ≡ some (e, []) → (notes ≡ []) × A)
    → ((e : Checker) (between : List Note) → rest (e, between) ≡ some (d, []) → (between ≡ []) × B)
    → and_then m rest ≡ some (d, [])
    → (notes ≡ []) × (A × B)
and_then-clean none rest notes d first later h = absurd (none-ne-some _ h)
and_then-clean (some (e, between)) rest notes d first later h =
    let (clean, b) = later e between h in
    let (none_yet, a) = first e (ap (λ (ns : List Note). some (e, ns)) clean) in (none_yet, (a, b))

absent_note-clean :
    (answer : Option Bool) (at : Text) (reason : Reason) (c d : Checker) (notes : List Note)
    → absent_note answer at reason (c, notes) ≡ some (d, [])
    → (notes ≡ []) × (answer ≡ some true)
absent_note-clean none at reason c d notes h = absurd (none-ne-some _ h)
absent_note-clean (some true) at reason c d notes h =
    (ap (λ (p : Checker × List Note). p.1) (some-injective _ _ h), refl)
absent_note-clean (some false) at reason c d notes h = absurd (add_note-clean at reason c d notes h)

module _ (ifaces : ℕ → Iface) (options : Options) (off : options.lossy_opt ≡ false) where
  run-clean :
      (at : Text) (q : Query) (c d : Checker) (notes : List Note)
      → run ifaces options at q (c, notes) ≡ some (d, [])
      → (notes ≡ []) × SubtypeIn q.mode ifaces q
  unfolding run
  run-clean at q c d notes h =
      let (none_yet, held) =
        settle-clean (length c.relaxed) at notes
          (sub ifaces options (suc options.max_depth) (fresh c) q (at ∷ [])) d h in
      (
        none_yet,
        sub-SubtypeIn ifaces options (suc options.max_depth) (fresh c) q (at ∷ []) d off
            (unfold fresh in refl) held,
      )

  positions-clean :
      (given_at needed_at : ℕ) (mode : Mode) (named : ℕ → Text) (reason : Reason) (i : ℕ)
      (needed given : List ℕ) (c d : Checker) (notes : List Note)
      → positions ifaces options given_at needed_at mode named reason i needed given (c, notes)
        ≡ some (d, [])
      → (notes ≡ []) × Positions ifaces given_at needed_at mode needed given
  unfolding positions
  positions-clean given_at needed_at mode named reason i [] given c d notes h =
      (ap (λ (p : Checker × List Note). p.1) (some-injective _ _ h), tt)
  positions-clean given_at needed_at mode named reason i (n ∷ needed) [] c d notes h =
      let answer = is_null_like (ifaces needed_at) n in
      and_then-clean (absent_note answer (named i) reason (c, notes)) _ notes d
        (λ e first. absent_note-clean answer (named i) reason c e notes first)
        (λ e between rest.
          positions-clean given_at needed_at mode named reason (i + 1) needed [] e d between rest)
        h
  positions-clean given_at needed_at mode named reason i (n ∷ needed) (g ∷ given) c d notes h =
      let q : Query = record { source = given_at; s = g; target = needed_at; t = n; mode = mode } in
      and_then-clean (run ifaces options (named i) q (c, notes)) _ notes d
        (λ e first. run-clean (named i) q c e notes first)
        (λ e between rest.
          positions-clean given_at needed_at mode named reason (i + 1) needed given e d between
            rest)
        h

  module _ (canister fragment : Side) (mode : Mode) where
    method-clean :
        (fm : Entry) (found : Option Entry) (c d : Checker) (notes : List Note)
        → get_entry canister.methods fm.name ≡ found
        → match_method ifaces options canister.number fragment.number mode fm found (c, notes)
          ≡ some (d, [])
        → (notes ≡ []) × IsMet ifaces canister fragment mode fm
    unfolding match_method
    method-clean fm none c d notes e h = absurd (add_note-clean fm.name missing_method c d notes h)
    method-clean fm (some cm) c d notes e h =
        elim (Bool-cases (func_mode_code cm.mode == func_mode_code fm.mode)) [
          | inr differ ↦ absurd (add_note-clean fm.name other_mode c d notes (rw differ at h))
          | inl alike ↦
              let (none_yet, (args, results)) =
                and_then-clean
                  (positions ifaces options fragment.number canister.number strict _
                    missing_argument 0 cm.args fm.args (c, notes))
                  _ notes d
                  (λ e first.
                    positions-clean fragment.number canister.number strict _ missing_argument 0
                      cm.args fm.args c e notes first)
                  (λ e between rest.
                    positions-clean canister.number fragment.number mode _ missing_result 0
                      fm.results cm.results e d between rest)
                  (rw alike at h) in
              (
                none_yet,
                record {
                  cm = cm;
                  found = e;
                  same_mode = func_mode_code-injective cm.mode fm.mode ((==_iff _ _).0 alike);
                  args = args;
                  results = results;
                },
              )
        ]

    methods-clean :
        (fms : List Entry) (c d : Checker) (notes : List Note)
        → match_methods ifaces options canister fragment mode fms (c, notes) ≡ some (d, [])
        → (notes ≡ []) × All (IsMet ifaces canister fragment mode) fms
    unfolding match_methods
    methods-clean [] c d notes h =
        (ap (λ (p : Checker × List Note). p.1) (some-injective _ _ h), tt)
    methods-clean (fm ∷ fms) c d notes h =
        and_then-clean
          (match_method ifaces options canister.number fragment.number mode fm
            (get_entry canister.methods fm.name) (c, notes))
          _ notes d
          (λ e first. method-clean fm (get_entry canister.methods fm.name) c e notes refl first)
          (λ e between rest. methods-clean fms e d between rest) h

-- Where the two unusual rules of opt are off and matchService says ok, each method of the fragment is met
-- by a method of the canister of its name and mode. At each position the arguments are subtypes by the
-- rules of Candid alone, and the results subtypes in the mode that was asked for: strict, by Candid's rules
-- too; relaxed, by these and the rule that lets a variant have extra cases. A position that is not given
-- has a type that is null, opt or reserved.
pub match_service-IsMet :
    (ifaces : ℕ → Iface) (options : Options) (canister fragment : Side) (mode : Mode)
    (result : Match)
    → options.lossy_opt ≡ false
    → match_service ifaces options canister fragment mode ≡ some result
    → result.ok ≡ true
    → All (IsMet ifaces canister fragment mode) fragment.methods
unfolding match_service
match_service-IsMet ifaces options canister fragment mode result off h clean =
    go (match_methods ifaces options canister fragment mode fragment.methods (new_checker, [])) refl
      h
  where
    go :
        (progress : Progress)
        → match_methods ifaces options canister fragment mode fragment.methods (new_checker, [])
          ≡ progress
        → match_result ifaces options progress ≡ some result
        → All (IsMet ifaces canister fragment mode) fragment.methods
    go none e h = absurd (none-ne-some _ h)
    go (some (d, [])) e h =
        (methods-clean ifaces options off canister fragment mode fragment.methods new_checker d []
          e).1
    go (some (d, n ∷ ns)) e h = let r = ap (λ (m : Match). m.ok) (some-injective _ _ h) in cc

-- Where the two unusual rules of opt are off and typeSubtype says ok, the type is a subtype in the mode
-- that was asked for: strict, by the rules of Candid alone; relaxed, by these and the rule that lets a
-- variant have extra cases.
pub type_subtype_sound :
    (ifaces : ℕ → Iface) (options : Options) (q : Query) (result : Match)
    → options.lossy_opt ≡ false
    → type_subtype ifaces options q ≡ some result
    → result.ok ≡ true
    → SubtypeIn q.mode ifaces q
unfolding type_subtype
type_subtype_sound ifaces options q result off h clean =
    go (sub ifaces options (suc options.max_depth) new_checker q []) refl h
  where
    go :
        (answer : Answer)
        → sub ifaces options (suc options.max_depth) new_checker q [] ≡ answer
        → subtype_result ifaces options answer ≡ some result
        → SubtypeIn q.mode ifaces q
    go (holds, d) e h =
        sub-SubtypeIn ifaces options (suc options.max_depth) new_checker q [] d off refl e
    go (fails path reason, d) e h = let r = ap (λ (m : Match). m.ok) (some-injective _ _ h) in cc
    go (thrown, d) e h = absurd (none-ne-some _ h)
    go (out_of_fuel, d) e h = absurd (none-ne-some _ h)

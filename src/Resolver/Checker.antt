-- ===== src/Resolver/Checker.antt =====
-- The state of profile/packages/resolver/src/subtype.mjs: the queries, what a checker remembers between
-- them, and what it answers.
use candid_core.Common.{
  ℕ, Bool, true, false, ◌&&◌, ◌||◌, List, [], ◌∷◌, ◌==◌, if◌then◌else◌, ◌≡◌, refl, arith,
}
use candid_core.Format.Chars.{Text}

pub data Mode : Type 0 where
  strict relaxed : Mode

-- `S`, `s`, `T`, `t` and `mode`. An interface stands by its number: the source tests two interfaces for
-- being the same object, and numbers the objects by their first use.
pub record Query : Type 0 where
  pub source : ℕ
  pub s : ℕ
  pub target : ℕ
  pub t : ℕ
  pub mode : Mode

abbrev pub Segments : Type 0
Segments = List Text

-- The first failure, without the words of its message.
pub data Reason : Type 0 where
  mismatch missing_field missing_case other_mode missing_argument missing_result : Reason
  missing_method step_budget depth_limit unsupported : Reason

-- A variant that was accepted with cases that the other side lacks.
pub record Relaxation : Type 0 where
  pub at : Segments
  pub cases : List Text

pub record Options : Type 0 where
  pub lossy_opt : Bool
  pub max_depth : ℕ
  pub max_steps : ℕ

pub record Checker : Type 0 where
  pub gamma : List Query
  pub relaxed : List Relaxation
  pub steps : ℕ
  pub depth : ℕ

-- `null` of the source is `holds`. `thrown` is a reference that leaves its table; `out_of_fuel` is not
-- an answer of the source.
pub data Verdict : Type 0 where
  holds thrown out_of_fuel : Verdict
  fails : Segments → Reason → Verdict

abbrev pub Answer : Type 0
Answer = Verdict × Checker

abbrev pub mode_eq : Mode → Mode → Bool
mode_eq strict strict = true
mode_eq strict relaxed = false
mode_eq relaxed strict = false
mode_eq relaxed relaxed = true

-- Two keys of `gamma` are the same text.
abbrev pub query_eq : Query → Query → Bool
query_eq a b =
    a.source == b.source
    && a.s == b.s
    && a.target == b.target
    && a.t == b.t
    && mode_eq a.mode b.mode

unfoldable pub has : List Query → Query → Bool
has [] q = false
has (k ∷ ks) q = query_eq k q || has ks q

-- `gamma.delete(key)`.
unfoldable pub delete : List Query → Query → List Query
delete [] q = []
delete (k ∷ ks) q = if query_eq k q then delete ks q else k ∷ delete ks q

-- `S === T && s === t`.
unfoldable pub is_same : Query → Bool
is_same q = q.source == q.target && q.s == q.t

-- `new SubtypeChecker(opts)`, and `fresh()`.
abbrev pub new_checker : Checker
new_checker = record { gamma = []; relaxed = []; steps = 0; depth = 0 }

unfoldable pub fresh : Checker → Checker
fresh c = record { gamma = []; relaxed = c.relaxed; steps = c.steps; depth = 0 }

mode_eq→eq : (a b : Mode) → mode_eq a b ≡ true → a ≡ b
mode_eq→eq strict strict h = refl
mode_eq→eq strict relaxed h = cc
mode_eq→eq relaxed strict h = cc
mode_eq→eq relaxed relaxed h = refl

mode_eq_refl : (a : Mode) → mode_eq a a ≡ true
mode_eq_refl strict = refl
mode_eq_refl relaxed = refl

pub query_eq→eq : (a b : Query) → query_eq a b ≡ true → a ≡ b
query_eq→eq a b h = ground (arith, mode_eq→eq a.mode b.mode)

pub query_eq_refl : (a : Query) → query_eq a a ≡ true
query_eq_refl a = ground (arith, mode_eq_refl a.mode)

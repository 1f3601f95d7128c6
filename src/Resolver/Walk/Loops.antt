-- ===== src/Resolver/Walk/Loops.antt =====
-- When `unwrapOpt` of profile/packages/resolver/src/iface.mjs ends, and when it does not.
use candid_core.Resolver.Graph.{
  Iface, node, Node, opt, primitive, vec, record_of, variant, func, service, class,
}
use candid_core.Common.{ℕ, zero, suc, ◌<◌, Bool, true, ◌≡◌, refl, arith, Option, none, some}
use candid_core.Resolver.Walk.{unwrap_opt, Iface, Outcome, returns, unwrap_node, throws, endless}

-- `rank` goes down along every opt: no type is opt of itself, through opts alone.
abbrev pub IsRanked : Iface → (ℕ → ℕ) → Type 0
IsRanked iface rank = (ref inner : ℕ) → node iface ref ≡ some (opt inner) → rank inner < rank ref

-- The loop ended.
abbrev pub Halts : {A : Type 0} → Outcome A → Type 0
Halts (returns a) = Unit
Halts throws = Unit
Halts endless = ⊥

-- Where the opts of the graph do not run in a circle, the loop ends within the rank of its type, by `rank`.
pub unwrap_opt-Halts :
    (fuel : ℕ) (iface : Iface) (rank : ℕ → ℕ) (ref : ℕ) (optional : Bool)
    → IsRanked iface rank
    → rank ref < fuel
    → Halts (unwrap_opt fuel iface ref optional)
unfolding unwrap_opt
unwrap_opt-Halts zero iface rank ref optional ranked h = elim h [ ]
unwrap_opt-Halts (suc fuel) iface rank ref optional ranked h =
    go (λ inner lower. unwrap_opt-Halts fuel iface rank inner true ranked lower) (node iface ref)
      refl
  where
    go :
        ((inner : ℕ) → rank inner < fuel → Halts (unwrap_opt fuel iface inner true))
        → (n : Option Node) → node iface ref ≡ n
        → Halts (unwrap_node n ref optional (unwrap_opt fuel iface))
    go on none e = tt
    go on (some (opt inner)) e =
        let lower = ranked ref inner e in on inner (omega (arith, lower, h))
    go on (some (primitive p)) e = tt
    go on (some (vec a)) e = tt
    go on (some (record_of fs)) e = tt
    go on (some (variant fs)) e = tt
    go on (some (func m a b)) e = tt
    go on (some (service ms)) e = tt
    go on (some (class a b)) e = tt

-- Types each of which is opt of one of them.
abbrev pub IsOptLoop : Iface → (ℕ → Type 0) → Type 0
IsOptLoop iface C = (ref : ℕ) → C ref → (inner : ℕ) × (node iface ref ≡ some (opt inner)) × C inner

-- `unwrapOpt` of a type that is opt of itself, through opts alone, such as `type T = opt T`, never ends: no
-- number of rounds is enough.
pub unwrap_opt-endless :
    (fuel : ℕ) (iface : Iface) (C : ℕ → Type 0) (ref : ℕ) (optional : Bool)
    → IsOptLoop iface C
    → C ref
    → unwrap_opt fuel iface ref optional ≡ endless
unfolding unwrap_opt
unwrap_opt-endless zero iface C ref optional loop h = refl
unwrap_opt-endless (suc fuel) iface C ref optional loop h =
    let (inner, e, rest) = loop ref h in rw e (unwrap_opt-endless fuel iface C inner true loop rest)

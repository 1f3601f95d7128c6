-- ===== src/Resolver/Show/Ends.antt =====
-- When `show` of profile/packages/resolver/src/subtype.mjs ends: its bound on the depth counts records,
-- variants and functions, and not opt and vec.
use candid_core.Resolver.Walk.{endless, returns}
use candid_core.Resolver.Graph.{Iface, node, opt, vec}
use candid_core.Common.{ℕ, zero, suc, false, List, ◌≡◌, refl, some}
use candid_core.Resolver.Show.{show, show_node, Iface, endless, blob_of, returns}

-- Types each of which is opt or vec of one of them.
pub data WrappedIn (iface : Iface) (C : ℕ → Type 0) (ref : ℕ) : Type 0 where
  by_opt : (inner : ℕ) → node iface ref ≡ some (opt inner) → C inner → WrappedIn iface C ref
  by_vec : (inner : ℕ) → node iface ref ≡ some (vec inner) → C inner → WrappedIn iface C ref

not_blob :
    (iface : Iface) (C : ℕ → Type 0) (ref : ℕ)
    → WrappedIn iface C ref
    → blob_of (node iface ref) ≡ returns false
not_blob iface C ref (by_opt inner e h) = rw e refl
not_blob iface C ref (by_vec inner e h) = rw e refl

-- A type that is opt or vec of itself, through opts and vecs alone, such as `type V = vec V`, is never shown:
-- no depth of calls is enough, so that a message about it does not come to be.
pub show-endless :
    (fuel : ℕ) (iface : Iface) (C : ℕ → Type 0) (ref depth : ℕ) (seen : List ℕ)
    → ((x : ℕ) → C x → WrappedIn iface C x)
    → C ref
    → show fuel iface ref depth seen ≡ endless
unfolding show show_node
show-endless zero iface C ref depth seen loop h = refl
show-endless (suc fuel) iface C ref depth seen loop h =
    go (loop ref h) (λ x c. show-endless fuel iface C x depth seen loop c)
  where
    go :
        WrappedIn iface C ref
        → ((x : ℕ) → C x → show fuel iface x depth seen ≡ endless)
        → show_node iface (show fuel iface) (node iface ref) ref depth seen ≡ endless
    go (by_opt inner e c) again = rw (e, again inner c) refl
    go (by_vec inner e c) again = rw (e, not_blob iface C inner (loop inner c), again inner c) refl

-- ===== src/Resolver/Address/Tests.antt =====
-- Runs of the grammar of addresses, profile/packages/resolver/src/address.mjs.
use candid_core.Common.{[], ◌∷◌, ◌≡◌, refl, none, some}
use candid_core.Format.Chars.{codes, code_points}
use candid_core.Format.Bytes.Utf8.{utf8_encode}
use candid_core.Resolver.Walk.{elem, field, arg_at, throws}
use candid_core.Resolver.Address.{idl_hash, match_index, parse_path}
use candid_core.Resolver.Address.Whole.{parse_address, parse_rel_path}

idl_hash_run : idl_hash (codes "owner") ≡ 947296307
unfolding idl_hash utf8_encode code_points
idl_hash_run = refl

parse_path_run :
    parse_path (codes ".#1[].#0") ≡ some (field (codes "#1") 1 ∷ elem ∷ field (codes "#0") 0 ∷ [])
unfolding parse_path
parse_path_run = refl

parse_path-too_large : parse_path (codes ".#4294967296") ≡ none
unfolding parse_path
parse_path-too_large = refl

parse_address_run :
    parse_address (codes "transfer(0)[]") ≡ some (arg_at (codes "transfer") 0 (elem ∷ []))
unfolding parse_address parse_path match_index
parse_address_run = refl

parse_address-method_path : parse_address (codes "transfer[]") ≡ none
unfolding parse_address parse_path match_index
parse_address-method_path = refl

parse_rel_path-line : parse_rel_path (10 ∷ []) ≡ throws
unfolding parse_rel_path
parse_rel_path-line = refl

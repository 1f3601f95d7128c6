-- ===== src/Format/Formatter/Tests.antt =====
-- Runs of `formatterFor` of profile/packages/format/src/formatter.mjs.
use candid_core.Common.{ℤ, negsuc, true, [], ◌∷◌, ◌≡◌, refl, none, some, pos}
use candid_core.Format.Errors.{Code, ok, err}
use candid_core.Format.Chars.{codes, code_points, trim, is_space, has_unsafe, is_well_formed}
use candid_core.Format.Decimal.{pad_end, to_string}
use candid_core.Format.Util.{int_type, require_string, check_range, undefined, str, num, TypeName}
use candid_core.Format.Amount.{
  parse_amount, amount_re, check_decimals, check_symbol, amount_types, check_threshold,
  check_message,
}
use candid_core.Format.Bytes.{check_max_len}
use candid_core.Format.Formatter.{
  byte_types, require_candid, resolve_arg, literal, dynamic, Args, absent, named_type, Position,
  position, Options, Formatter, amount_of, value_tags,
}
use candid_core.Format.Formatter.Make.{amount_options, formatter_for, type_of, tags_of, present}
use candid_core.Format.Formatter.Run.{parse, display, number_text, scalar}
use candid_core.Format.Formatter.Blame.{BlamesValue}
use candid_core.Format.Formatter.Blame.Parse.{formatter_for-BlamesValue}
use candid_core.Format.Formatter.Ready.{tag_of, applies, IsReady, formatter_for-IsReady}

abbrev icp : Args
icp =
    (codes "decimals", dynamic (codes "query:icrc1_decimals"))
    ∷ (codes "symbol", literal (str (codes "ICP")))
    ∷ []

abbrev transfer_amount : Position
transfer_amount = position (named_type TypeName.nat) absent ((codes "amount", icp) ∷ [])

abbrev known : Options
known = record {
  refs = (codes "query:icrc1_decimals", num (pos 8)) ∷ [];
  now = undefined;
  token = none;
}

abbrev unknown : Options
unknown = record { refs = []; now = undefined; token = none }

abbrev icp_formatter : Formatter
icp_formatter = amount_of (amount_options TypeName.nat 8 (some (codes "ICP")) none none)

formatter_for_run : formatter_for transfer_amount known ≡ ok (some icp_formatter)
unfolding formatter_for require_candid resolve_arg check_threshold check_message check_decimals
    check_symbol code_points trim is_space has_unsafe is_well_formed amount_types
formatter_for_run = refl

formatter_for-unresolved : formatter_for transfer_amount unknown ≡ err Code.ref_unresolved
unfolding formatter_for require_candid amount_types resolve_arg
formatter_for-unresolved = refl

parse_run :
    parse icp_formatter (str (codes "1.5 ICP")) undefined ≡ ok (number_text (codes "150000000"))
unfolding parse parse_amount int_type require_string amount_re check_range pad_end to_string
    check_decimals check_symbol code_points trim is_space has_unsafe is_well_formed amount_types
parse_run = refl

abbrev bytes_with : ℤ → Position
bytes_with n = position (named_type (TypeName.named (codes "blob"))) absent (
    (
      codes "bytes",
      (codes "encoding", literal (str (codes "hex"))) ∷ (codes "max_len", literal (num n)) ∷ [],
    )
    ∷ [])

formatter_for-max_len : formatter_for (bytes_with (negsuc 0)) known ≡ err Code.arg
unfolding formatter_for require_candid byte_types resolve_arg check_max_len
formatter_for-max_len = refl

formatter_for-IsReady_example :
    (type : TypeName) × (raw : Args) × (type_of transfer_amount ≡ ok type)
    × (present value_tags (tags_of transfer_amount) ≡ (tag_of icp_formatter, raw) ∷ [])
    × (applies (tag_of icp_formatter) type ≡ true)
    × IsReady type icp_formatter
formatter_for-IsReady_example =
    formatter_for-IsReady transfer_amount known icp_formatter formatter_for_run

-- A second point in an amount, and an amount that is no number.
formatter_for-BlamesValue_example :
    BlamesValue (parse icp_formatter (str (codes "1.2.3")) undefined)
    × BlamesValue (display icp_formatter (scalar (str (codes "many"))))
formatter_for-BlamesValue_example =
    formatter_for-BlamesValue transfer_amount known icp_formatter (str (codes "1.2.3")) undefined
      (scalar (str (codes "many"))) formatter_for_run

-- ===== src/Format/Blob.antt =====
-- `toBytes` of profile/packages/format/src/util.mjs: what counts as bytes.
use candid_core.Common.{
  ℕ, Bool, not, ◌&&◌, List, leb, if◌then◌else◌, all, map, ℤ, magnitude, is_neg,
}
use candid_core.Format.Errors.{Code, Result, ok, err}

-- A value that bytes are asked of: a readable Uint8Array of any realm, an array of integers, or
-- anything else.
pub data Blob : Type 0 where
  view : List ℕ → Blob
  numbers : List ℤ → Blob
  no_blob : Blob

abbrev pub is_byte : ℤ → Bool
is_byte n = not (is_neg n) && leb (magnitude n) 255

unfoldable pub to_bytes : Blob → Result (List ℕ)
to_bytes (view bytes) = ok bytes
to_bytes (numbers ns) = if all is_byte ns then ok (map magnitude ns) else err Code.type_error
to_bytes no_blob = err Code.type_error

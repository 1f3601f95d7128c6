-- ===== src/Format/Chars.antt =====
-- The string operations that profile/packages/format/src uses, over UTF-16 code units: `trim`, the
-- `\s` and `\S` classes, the string iterator, `isWellFormed`, and the Unicode categories of
-- `UNSAFE_DISPLAY_CHAR` (Cc, Cf, Zl, Zp) of util.mjs.
use Prim.Native.Char.{code}
use Prim.Native.String.{String}
use candid_core.Common.{
  ℕ, suc, ◌+◌, ◌-◌, ◌*◌, ◌≤◌, Bool, true, false, not, ◌&&◌, ◌||◌, List, [], ◌∷◌, ◌++◌, ◌≡◌, ◌≢◌,
  refl, sym, ap, arith, leb, ◌==◌, if◌then◌else◌, all, All, drop_while, length, map, Stops,
  length-drop_while, Bool-cases, inl, inr,
}

abbrev pub Text : Type 0
Text = List ℕ

-- The code units of a literal (all of them are in the basic plane).
abbrev pub codes : String → Text
codes String.[] = []
codes (String.◌∷◌ c s) = code c ∷ codes s

abbrev pub between : ℕ → ℕ → ℕ → Bool
between lo hi c = leb lo c && leb c hi

abbrev pub is_digit : ℕ → Bool
is_digit c = between b'0' b'9' c

-- WhiteSpace and LineTerminator, which `trim` strips and `\s` matches.
unfoldable pub is_space : ℕ → Bool
is_space c =
    between 9 13 c
    || c == 32
    || c == 0xa0
    || c == 0x1680
    || between 0x2000 0x200a c
    || between 0x2028 0x2029 c
    || c == 0x202f
    || c == 0x205f
    || c == 0x3000
    || c == 0xfeff

abbrev pub cons_end : ℕ → Text → Text
cons_end c [] = if is_space c then [] else c ∷ []
cons_end c (d ∷ s) = c ∷ d ∷ s

abbrev pub trim_end : Text → Text
trim_end [] = []
trim_end (c ∷ s) = cons_end c (trim_end s)

abbrev pub trim_start : Text → Text
trim_start = drop_while is_space

unfoldable pub trim : Text → Text
trim s = trim_end (trim_start s)

-- /[A-Z]/g to lower case.
abbrev pub ascii_lower_unit : ℕ → ℕ
ascii_lower_unit c = if between b'A' b'Z' c then c + 32 else c

abbrev pub ascii_lower : Text → Text
ascii_lower = map ascii_lower_unit

abbrev pub is_high : ℕ → Bool
is_high c = between 0xd800 0xdbff c

abbrev pub is_low : ℕ → Bool
is_low c = between 0xdc00 0xdfff c

-- `[...s]`: a high and a low surrogate make one code point; a lone one stands for itself.
unfoldable pub code_points : Text → List ℕ
code_points [] = []
code_points (c ∷ []) = c ∷ []
code_points (c ∷ d ∷ s) = elim (is_high c && is_low d) [
  | true ↦ (0x10000 + (c - 0xd800) * 0x400 + (d - 0xdc00)) ∷ code_points s
  | false ↦ c ∷ code_points (d ∷ s)
]

-- `isWellFormed`: no lone surrogate.
unfoldable pub is_well_formed : Text → Bool
unfolding code_points
is_well_formed s = all (λ c. not (between 0xd800 0xdfff c)) (code_points s)

-- The code points of categories Cc, Cf, Zl and Zp.
unfoldable pub is_unsafe : ℕ → Bool
is_unsafe c =
    leb c 0x1f
    || between 0x7f 0x9f c
    || c == 0xad
    || between 0x600 0x605 c
    || c == 0x61c
    || c == 0x6dd
    || c == 0x70f
    || between 0x890 0x891 c
    || c == 0x8e2
    || c == 0x180e
    || between 0x200b 0x200f c
    || between 0x2028 0x202e c
    || between 0x2060 0x2064 c
    || between 0x2066 0x206f c
    || c == 0xfeff
    || between 0xfff9 0xfffb c
    || c == 0x110bd
    || c == 0x110cd
    || between 0x13430 0x1343f c
    || between 0x1bca0 0x1bca3 c
    || between 0x1d173 0x1d17a c
    || c == 0xe0001
    || between 0xe0020 0xe007f c

-- `UNSAFE_DISPLAY_CHAR.test(s)`.
unfoldable pub has_unsafe : Text → Bool
unfolding is_unsafe code_points
has_unsafe s = not (all (λ c. not (is_unsafe c)) (code_points s))

abbrev pub IsSolid : ℕ → Type 0
IsSolid c = is_space c ≡ false

pub cons_end-IsSolid : (x : ℕ) (t : Text) → IsSolid x → cons_end x t ≡ x ∷ t
cons_end-IsSolid x [] h = rw h
cons_end-IsSolid x (y ∷ t) h = refl

-- `trim` takes nothing from the end of a text, if it takes nothing from the part behind solid ones.
pub trim_end-append :
    (xs ys : Text) → All IsSolid xs → trim_end ys ≡ ys → trim_end (xs ++ ys) ≡ xs ++ ys
trim_end-append [] ys h e = e
trim_end-append (x ∷ xs) ys h e =
    rw (trim_end-append xs ys h.1 e) (cons_end-IsSolid x (xs ++ ys) h.0)

pub length-cons_end : (c : ℕ) (t : Text) → length (cons_end c t) ≤ suc (length t)
length-cons_end c [] = ground arith
length-cons_end c (d ∷ t) = omega arith

length-trim_end : (s : Text) → length (trim_end s) ≤ length s
length-trim_end [] = omega arith
length-trim_end (c ∷ s) = omega (arith, length-trim_end s, length-cons_end c (trim_end s))

-- What `symbol === symbol.trim()` says of a symbol that is not empty.
pub record IsTrimmed (s : Text) : Type 0 where
  pub not_empty : s ≢ []
  pub front : Stops is_space s
  pub back : trim_end s ≡ s

trim_space : (c : ℕ) (s : Text) → is_space c ≡ true → (c ∷ s) ≢ trim (c ∷ s)
unfolding trim
trim_space c s h e =
    let n : length (c ∷ s) ≡ length (trim_end (drop_while is_space s)) = ap length (rw h at e) in
    omega (arith, length-trim_end (drop_while is_space s), length-drop_while is_space s)

pub trim-IsTrimmed : (s : Text) → s ≢ [] → s ≡ trim s → IsTrimmed s
unfolding trim
trim-IsTrimmed [] n e = absurd (n refl)
trim-IsTrimmed (c ∷ s) n e = elim (Bool-cases (is_space c)) [
  | inl h ↦ absurd (trim_space c s h e)
  | inr h ↦ record { not_empty = n; front = h; back = sym (rw h at e) }
]

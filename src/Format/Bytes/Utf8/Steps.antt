-- ===== src/Format/Bytes/Utf8/Steps.antt =====
-- One step of the UTF-8 decoder that profile/packages/format/src/bytes.mjs uses: the bytes that a pending
-- code point was read from, and what the next byte makes of them.
use candid_core.Common.{
  ℕ, ◌+◌, ◌-◌, ◌*◌, ◌/◌, ◌%◌, ◌≤◌, ◌<◌, true, false, List, [], ◌∷◌, ◌++◌, ◌≡◌, ap, ap₂, arith, ltb,
  ◌==◌, if◌then◌else◌, Bool-cases, inl, inr, Option, none, some, subst, ◌⊎◌, dec_lt,
}
use candid_core.Format.Chars.{between}
use candid_core.Format.Bytes.Utf8.{utf8_char, Pending, Step, emit, wait, first_byte, next_byte}

abbrev pub state : ℕ → ℕ → ℕ → ℕ → Pending
state left point lower upper = record { left = left; point = point; lower = lower; upper = upper }

-- A code point that is no surrogate.
abbrev pub IsScalar : ℕ → Type 0
IsScalar c = ((c < 0xd800) ⊎ (0xe000 ≤ c)) × (c < 0x110000)

-- A block of 64 code points is all scalar, or none of it is.
pub IsScalar-block : (y c : ℕ) → c < 64 → IsScalar (y * 64) → IsScalar (y * 64 + c)
IsScalar-block y c h (inl low, top) = (inl (omega arith), omega arith)
IsScalar-block y c h (inr high, top) = (inr (omega arith), omega arith)

-- The bytes that a pending code point was read from.
pub data Partial : Pending → List ℕ → Type 0 where
  of_two : (x : ℕ) → 2 ≤ x → x < 32 → Partial (state 1 x 0x80 0xbf) ((0xc0 + x) ∷ [])
  of_three :
      (x lo hi : ℕ)
      → x < 16
      → 0x80 ≤ lo
      → hi ≤ 0xbf
      → 32 ≤ x * 64 + (lo - 0x80)
      → ((b : ℕ) → lo ≤ b → b ≤ hi → IsScalar ((x * 64 + (b - 0x80)) * 64))
      → Partial (state 2 x lo hi) ((0xe0 + x) ∷ [])
  of_three_more :
      (y : ℕ)
      → 32 ≤ y
      → y < 1024
      → IsScalar (y * 64)
      → Partial (state 1 y 0x80 0xbf) ((0xe0 + y / 64) ∷ (0x80 + y % 64) ∷ [])
  of_four :
      (x lo hi : ℕ)
      → x < 5
      → 0x80 ≤ lo
      → hi ≤ 0xbf
      → 16 ≤ x * 64 + (lo - 0x80)
      → x * 64 + (hi - 0x80) < 272
      → Partial (state 3 x lo hi) ((0xf0 + x) ∷ [])
  of_four_more :
      (y : ℕ)
      → 16 ≤ y
      → y < 272
      → Partial (state 2 y 0x80 0xbf) ((0xf0 + y / 64) ∷ (0x80 + y % 64) ∷ [])
  of_four_last :
      (z : ℕ)
      → 1024 ≤ z
      → z < 17408
      → Partial
          (state 1 z 0x80 0xbf)
          ((0xf0 + z / 4096) ∷ (0x80 + z / 64 % 64) ∷ (0x80 + z % 64) ∷ [])

-- What a step makes of the bytes read so far.
abbrev pub Advances : Option Step → List ℕ → Type 0
Advances none bytes = Unit
Advances (some (emit c)) bytes = (utf8_char c ≡ bytes) × IsScalar c
Advances (some (wait p)) bytes = Partial p bytes

module _ (c : ℕ) {a b : ℕ} where
  pub two_bytes :
      0x80 ≤ c → c < 0x800 → 0xc0 + c / 64 ≡ a → 0x80 + c % 64 ≡ b → utf8_char c ≡ a ∷ b ∷ []
  unfolding utf8_char
  two_bytes low high ea eb =
      let p : ltb c 0x80 ≡ false = ground arith in
      let q : ltb c 0x800 ≡ true = ground arith in rw (p, q) (ap₂ (λ a b. a ∷ b ∷ []) ea eb)

  pub three_bytes :
      {d : ℕ}
      → 0x800 ≤ c
      → c < 0x10000
      → 0xe0 + c / 4096 ≡ a
      → 0x80 + c / 64 % 64 ≡ b
      → 0x80 + c % 64 ≡ d
      → utf8_char c ≡ a ∷ b ∷ d ∷ []
  unfolding utf8_char
  three_bytes low high ea eb ed =
      let o : ltb c 0x80 ≡ false = ground arith in
      let p : ltb c 0x800 ≡ false = ground arith in
      let q : ltb c 0x10000 ≡ true = ground arith in
      rw (o, p, q) (ap₂ (λ s d. s ++ d ∷ []) (ap₂ (λ a b. a ∷ b ∷ []) ea eb) ed)

  pub four_bytes :
      {d e : ℕ}
      → 0x10000 ≤ c
      → 0xf0 + c / 262144 ≡ a
      → 0x80 + c / 4096 % 64 ≡ b
      → 0x80 + c / 64 % 64 ≡ d
      → 0x80 + c % 64 ≡ e
      → utf8_char c ≡ a ∷ b ∷ d ∷ e ∷ []
  unfolding utf8_char
  four_bytes low ea eb ed ee =
      let o : ltb c 0x80 ≡ false = ground arith in
      let p : ltb c 0x800 ≡ false = ground arith in
      let q : ltb c 0x10000 ≡ false = ground arith in
      rw (o, p, q)
        (ap₂ (λ s t. s ++ t) (ap₂ (λ a b. a ∷ b ∷ []) ea eb) (ap₂ (λ d e. d ∷ e ∷ []) ed ee))

-- A byte within its bounds moves a pending code point on.
pub inside_bounds : (lo hi b : ℕ) → between lo hi b ≡ true → (lo ≤ b) × (b ≤ hi)
inside_bounds lo hi b h = (ground arith, ground arith)

pub next-Advances :
    {p : Pending} {bytes : List ℕ} (b : ℕ)
    → Partial p bytes
    → Advances (next_byte p b) (bytes ++ b ∷ [])
unfolding next_byte
next-Advances b (of_two x low high) = elim (Bool-cases (between 0x80 0xbf b)) [
  | inr out ↦ rw out tt
  | inl inside ↦
      let (h, k) = inside_bounds 0x80 0xbf b inside in
      rw inside (
        two_bytes (x * 64 + (b - 0x80)) (omega arith) (omega arith) (omega arith) (omega arith),
        (inl (omega arith), omega arith),
      )
]
next-Advances b (of_three x lo hi high l u more scalar) = elim (Bool-cases (between lo hi b)) [
  | inr out ↦ rw out tt
  | inl inside ↦
      let (h, k) = inside_bounds lo hi b inside in
      let y = x * 64 + (b - 0x80) in
      rw inside (
        subst (Partial (state 1 y 0x80 0xbf)) (ap₂ (λ a b. a ∷ b ∷ []) (omega arith) (omega arith))
          (of_three_more y (omega arith) (omega arith) (scalar b h k)))
]
next-Advances b (of_three_more y low high scalar) = elim (Bool-cases (between 0x80 0xbf b)) [
  | inr out ↦ rw out tt
  | inl inside ↦
      let (h, k) = inside_bounds 0x80 0xbf b inside in
      rw inside (
        three_bytes (y * 64 + (b - 0x80)) (omega arith) (omega arith) (omega arith) (omega arith)
            (omega arith),
        IsScalar-block y (b - 0x80) (omega arith) scalar,
      )
]
next-Advances b (of_four x lo hi high l u more top) = elim (Bool-cases (between lo hi b)) [
  | inr out ↦ rw out tt
  | inl inside ↦
      let (h, k) = inside_bounds lo hi b inside in
      let y = x * 64 + (b - 0x80) in
      rw inside (
        subst (Partial (state 2 y 0x80 0xbf)) (ap₂ (λ a b. a ∷ b ∷ []) (omega arith) (omega arith))
          (of_four_more y (omega arith) (omega arith)))
]
next-Advances b (of_four_more y low high) = elim (Bool-cases (between 0x80 0xbf b)) [
  | inr out ↦ rw out tt
  | inl inside ↦
      let (h, k) = inside_bounds 0x80 0xbf b inside in
      let z = y * 64 + (b - 0x80) in
      rw inside (
        subst (Partial (state 1 z 0x80 0xbf))
          (ap₂ (λ s c. s ++ c ∷ []) (ap₂ (λ a b. a ∷ b ∷ []) (omega arith) (omega arith))
            (omega arith))
          (of_four_last z (omega arith) (omega arith)))
]
next-Advances b (of_four_last z low high) = elim (Bool-cases (between 0x80 0xbf b)) [
  | inr out ↦ rw out tt
  | inl inside ↦
      let (h, k) = inside_bounds 0x80 0xbf b inside in
      rw inside (
        four_bytes (z * 64 + (b - 0x80)) (omega arith) (omega arith) (omega arith) (omega arith)
            (omega arith),
        (inr (omega arith), omega arith),
      )
]

-- The bound on the second byte keeps the surrogates out.
pub three-IsScalar :
    (b : ℕ)
    → 0xe0 ≤ b
    → b ≤ 0xef
    → (c : ℕ) → (if b == 0xe0 then 0xa0 else 0x80) ≤ c
    → c ≤ (if b == 0xed then 0x9f else 0xbf)
    → IsScalar (((b - 0xe0) * 64 + (c - 0x80)) * 64)
three-IsScalar b h k c low high =
    let floor : 0x80 ≤ c = ground arith in
    let top : c ≤ 0xbf = ground arith in
    elim (dec_lt b 0xee) [
      | yes below ↦ (inl (ground arith), omega arith)
      | no above ↦ (inr (omega arith), omega arith)
    ]

pub first-Advances : (b : ℕ) → Advances (first_byte b) (b ∷ [])
unfolding first_byte utf8_char
first-Advances b = elim (Bool-cases (ltb b 0x80)) [
  | inl ascii ↦ rw ascii (rw ascii, (inl (ground arith), ground arith))
  | inr above ↦ elim (Bool-cases (between 0xc2 0xdf b)) [
    | inl two ↦
        let (h, k) = inside_bounds 0xc2 0xdf b two in
        rw (above, two)
          (subst (Partial (state 1 (b - 0xc0) 0x80 0xbf)) (ap (λ b. b ∷ []) (omega arith))
            (of_two (b - 0xc0) (omega arith) (omega arith)))
    | inr no_two ↦ elim (Bool-cases (between 0xe0 0xef b)) [
      | inl three ↦
          let (h, k) = inside_bounds 0xe0 0xef b three in
          let lo : ℕ = if b == 0xe0 then 0xa0 else 0x80 in
          let hi : ℕ = if b == 0xed then 0x9f else 0xbf in
          rw (above, no_two, three)
            (subst (Partial (state 2 (b - 0xe0) lo hi)) (ap (λ b. b ∷ []) (omega arith)) (
              of_three (b - 0xe0) lo hi (omega arith) (ground arith) (ground arith) (ground arith)
                (three-IsScalar b h k)))
      | inr no_three ↦ elim (Bool-cases (between 0xf0 0xf4 b)) [
        | inl four ↦
            let (h, k) = inside_bounds 0xf0 0xf4 b four in
            let lo : ℕ = if b == 0xf0 then 0x90 else 0x80 in
            let hi : ℕ = if b == 0xf4 then 0x8f else 0xbf in
            rw (above, no_two, no_three, four)
              (subst (Partial (state 3 (b - 0xf0) lo hi)) (ap (λ b. b ∷ []) (omega arith)) (
                of_four (b - 0xf0) lo hi (omega arith) (ground arith) (ground arith) (ground arith)
                  (ground arith)))
        | inr no_four ↦ rw (above, no_two, no_three, no_four) tt
      ]
    ]
  ]
]

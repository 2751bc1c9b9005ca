-- ===== src/Text/Utf8.antt =====
-- UTF-8: `as_bytes` and `String::from_utf8`.
use sqlx_monetdb.Prelude.{
  ℕ, suc, ◌+◌, ◌-◌, ◌*◌, ◌/◌, ◌%◌, ◌≤◌, ◌<◌, ◌≡◌, refl, ap, ◌∙◌, ◌&&◌, ◌⊎◌, List, [], ◌∷◌, ◌++◌,
  Option, none, some, ltb, leb, arith, ◌==◌, Bool-cases, inl, inr, sym, All-append, if◌then◌else◌,
  All, append_assoc,
}
use sqlx_monetdb.Text.{Text}

-- The bytes of one character.
unfoldable pub encode_char : ℕ → List ℕ
encode_char c =
    if ltb c 0x80
    then c ∷ []
    else if ltb c 0x800
    then (0xC0 + c / 64) ∷ (0x80 + c % 64) ∷ []
    else if ltb c 0x10000
    then (0xE0 + c / 4096) ∷ (0x80 + c / 64 % 64) ∷ (0x80 + c % 64) ∷ []
    else (0xF0 + c / 262144) ∷ (0x80 + c / 4096 % 64) ∷ (0x80 + c / 64 % 64) ∷ (0x80 + c % 64) ∷ []

-- `s.as_bytes()`
unfoldable pub as_bytes : Text → List ℕ
unfolding encode_char
as_bytes [] = []
as_bytes (c ∷ s) = encode_char c ++ as_bytes s

-- What the decoder waits for: continuation bytes still to come, the value so far, and the range
-- that the next byte must lie in, which keeps out surrogates, overlong forms and values too large.
pub record Pending : Type 0 where
  pub needed : ℕ
  pub value : ℕ
  pub low : ℕ
  pub high : ℕ

abbrev pub await : ℕ → ℕ → ℕ → ℕ → Option Pending
await needed value low high =
    some (record { needed = needed; value = value; low = low; high = high })

-- A byte that begins a longer character.
unfoldable pub lead : ℕ → Option Pending
lead b =
    if ltb b 0xC2
    then none
    else if ltb b 0xE0
    then await 1 (b - 0xC0) 0x80 0xBF
    else if b == 0xE0
    then await 2 0 0xA0 0xBF
    else if b == 0xED
    then await 2 0xD 0x80 0x9F
    else if ltb b 0xF0
    then await 2 (b - 0xE0) 0x80 0xBF
    else if b == 0xF0
    then await 3 0 0x90 0xBF
    else if b == 0xF4
    then await 3 4 0x80 0x8F
    else if ltb b 0xF4
    then await 3 (b - 0xF0) 0x80 0xBF
    else none

abbrev pub cons_char : ℕ → Option Text → Option Text
cons_char c none = none
cons_char c (some s) = some (c ∷ s)

-- What one byte does: it ends a character, leaves one open, or is not well formed here.
pub data Move : Type 0 where
  finish : ℕ → Move
  go_on : Pending → Move
  refuse : Move

unfoldable pub advance : Option Pending → ℕ → Move
unfolding lead
advance none b = if ltb b 0x80 then finish b else elim (lead b) [ none ↦ refuse | some p ↦ go_on p ]
advance (some p) b =
    let value = p.value * 64 + (b - 0x80) in
    if leb p.low b && leb b p.high
    then if ltb 1 p.needed
      then go_on (record { needed = p.needed - 1; value = value; low = 0x80; high = 0xBF })
      else finish value
    else refuse

unfoldable pub decode_from : Option Pending → List ℕ → Option Text
decode_from none [] = some []
decode_from (some p) [] = none
decode_from p (b ∷ bytes) = elim (advance p b) [
  | finish c ↦ cons_char c (decode_from none bytes)
  | go_on p' ↦ decode_from (some p') bytes
  | refuse ↦ none
]

-- `String::from_utf8(bytes).ok()`
unfoldable pub from_utf8 : List ℕ → Option Text
unfolding decode_from advance
from_utf8 bytes = decode_from none bytes

-- The values of Rust's `char`.
abbrev pub IsScalar : ℕ → Type 0
IsScalar c = (c < 0xD800) ⊎ ((0xE000 ≤ c) × (c < 0x110000))

finish_step :
    (p : Option Pending) (b c : ℕ) (r : List ℕ)
    → advance p b ≡ finish c
    → decode_from p (b ∷ r) ≡ cons_char c (decode_from none r)
unfolding decode_from
finish_step none b c r h = rw (h, decode_from)
finish_step (some p) b c r h = rw (h, decode_from)

go_on_step :
    (p : Option Pending) (b : ℕ) (p' : Pending) (r : List ℕ)
    → advance p b ≡ go_on p'
    → decode_from p (b ∷ r) ≡ decode_from (some p') r
unfolding decode_from
go_on_step none b p' r h = rw (h, decode_from)
go_on_step (some p) b p' r h = rw (h, decode_from)

abbrev after : ℕ → ℕ → Pending
after needed value = record { needed = needed; value = value; low = 0x80; high = 0xBF }

-- The last byte of a character.
last_byte :
    (low high value x : ℕ) (r : List ℕ)
    → low ≤ 0x80 + x
    → 0x80 + x ≤ high
    → decode_from
        (some (record { needed = 1; value = value; low = low; high = high }))
        ((0x80 + x) ∷ r)
      ≡ cons_char (value * 64 + x) (decode_from none r)
last_byte low high value x r h k =
    finish_step _ (0x80 + x) (value * 64 + x) r (unfold advance in ground arith)

inner_byte :
    (n low high value x : ℕ) (r : List ℕ)
    → low ≤ 0x80 + x
    → 0x80 + x ≤ high
    → decode_from
        (some (record { needed = suc (suc n); value = value; low = low; high = high }))
        ((0x80 + x) ∷ r)
      ≡ decode_from (some (after (suc n) (value * 64 + x))) r
inner_byte n low high value x r h k = go_on_step _ (0x80 + x) _ r (unfold advance in ground arith)

-- Characters of two, three and four bytes.
two_bytes :
    (c : ℕ) (r : List ℕ)
    → 0x80 ≤ c
    → c < 0x800
    → decode_from none ((0xC0 + c / 64) ∷ (0x80 + c % 64) ∷ r) ≡ cons_char c (decode_from none r)
two_bytes c r h k =
    go_on_step none (0xC0 + c / 64) (after 1 (c / 64)) _ (unfold advance in ground arith)
    ∙ last_byte 0x80 0xBF (c / 64) (c % 64) r (omega arith) (omega arith)
    ∙ ap (λ x. cons_char x (decode_from none r)) (omega arith)

-- The range of the second byte that a lead byte asks for.
abbrev Opens : ℕ → ℕ → ℕ → ℕ → Type 0
Opens lead_byte needed value x =
    (low : ℕ) × (high : ℕ) × (advance none lead_byte
      ≡ go_on (record { needed = needed; value = value; low = low; high = high }))
    × (low ≤ 0x80 + x)
    × (0x80 + x ≤ high)

Opens-three :
    (h x : ℕ) → h < 16 → x < 64 → (h ≡ 0 → 0x20 ≤ x) → (h ≡ 13 → x < 0x20) → Opens (0xE0 + h) 2 h x
unfolding advance
Opens-three h x hh hx first second = elim (Bool-cases (h == 0)) [
  | inl e ↦ (0xA0, 0xBF, ground arith, ground arith, omega arith)
  | inr e ↦ elim (Bool-cases (h == 13)) [
    | inl e' ↦ (0x80, 0x9F, ground arith, omega arith, ground arith)
    | inr e' ↦ (0x80, 0xBF, ground arith, omega arith, omega arith)
  ]
]

Opens-four :
    (h x : ℕ) → h < 5 → x < 64 → (h ≡ 0 → 0x10 ≤ x) → (h ≡ 4 → x < 0x10) → Opens (0xF0 + h) 3 h x
unfolding advance
Opens-four h x hh hx first second = elim (Bool-cases (h == 0)) [
  | inl e ↦ (0x90, 0xBF, ground arith, ground arith, omega arith)
  | inr e ↦ elim (Bool-cases (h == 4)) [
    | inl e' ↦ (0x80, 0x8F, ground arith, omega arith, ground arith)
    | inr e' ↦ (0x80, 0xBF, ground arith, omega arith, omega arith)
  ]
]

three_bytes :
    (c : ℕ) (r : List ℕ)
    → 0x800 ≤ c
    → c < 0x10000
    → IsScalar c
    → decode_from none ((0xE0 + c / 4096) ∷ (0x80 + c / 64 % 64) ∷ (0x80 + c % 64) ∷ r)
      ≡ cons_char c (decode_from none r)
three_bytes c r h k scalar =
    let (low, high, opens, le, ge) =
      Opens-three (c / 4096) (c / 64 % 64) (omega arith) (omega arith) (λ e. omega arith)
        (λ e. omega arith) in
    go_on_step none (0xE0 + c / 4096) _ _ opens
    ∙ inner_byte 0 low high (c / 4096) (c / 64 % 64) _ le ge
    ∙ last_byte 0x80 0xBF (c / 4096 * 64 + c / 64 % 64) (c % 64) r (omega arith) (omega arith)
    ∙ ap (λ x. cons_char x (decode_from none r)) (omega arith)

four_bytes :
    (c : ℕ) (r : List ℕ)
    → 0x10000 ≤ c
    → c < 0x110000
    → decode_from none
        ((0xF0 + c / 262144) ∷ (0x80 + c / 4096 % 64) ∷ (0x80 + c / 64 % 64) ∷ (0x80 + c % 64) ∷ r)
      ≡ cons_char c (decode_from none r)
four_bytes c r h k =
    let (low, high, opens, le, ge) =
      Opens-four (c / 262144) (c / 4096 % 64) (omega arith) (omega arith) (λ e. omega arith)
        (λ e. omega arith) in
    go_on_step none (0xF0 + c / 262144) _ _ opens
    ∙ inner_byte 1 low high (c / 262144) (c / 4096 % 64) _ le ge
    ∙ inner_byte 0 0x80 0xBF _ (c / 64 % 64) _ (omega arith) (omega arith)
    ∙ last_byte 0x80 0xBF _ (c % 64) r (omega arith) (omega arith)
    ∙ ap (λ x. cons_char x (decode_from none r)) (omega arith)

decode-encode_char :
    (c : ℕ) (r : List ℕ)
    → IsScalar c
    → decode_from none (encode_char c ++ r) ≡ cons_char c (decode_from none r)
unfolding encode_char
decode-encode_char c r h = elim (Bool-cases (ltb c 0x80)) [
  | inl e ↦ rw e (finish_step none c c r (unfold advance in ground arith))
  | inr e ↦ elim (Bool-cases (ltb c 0x800)) [
    | inl e' ↦ rw (e, e') (two_bytes c r (ground arith) (ground arith))
    | inr e' ↦ elim (Bool-cases (ltb c 0x10000)) [
      | inl e'' ↦ rw (e, e', e'') (three_bytes c r (ground arith) (ground arith) h)
      | inr e'' ↦ rw (e, e', e'') (four_bytes c r (ground arith) (ground arith))
    ]
  ]
]

-- A text is read back from its bytes.
pub from_utf8-as_bytes : (s : Text) → All IsScalar s → from_utf8 (as_bytes s) ≡ some s
unfolding from_utf8 as_bytes
from_utf8-as_bytes [] h = refl
from_utf8-as_bytes (c ∷ s) (hc, h) =
    decode-encode_char c (as_bytes s) hc ∙ ap (cons_char c) (from_utf8-as_bytes s h)

pub as_bytes-append : (s t : Text) → as_bytes (s ++ t) ≡ as_bytes s ++ as_bytes t
unfolding as_bytes
as_bytes-append [] t = refl
as_bytes-append (c ∷ s) t =
    ap (λ r. encode_char c ++ r) (as_bytes-append s t)
    ∙ sym (append_assoc (encode_char c) (as_bytes s) (as_bytes t))

encode_char-lt : (c : ℕ) → IsScalar c → All (λ b. b < 256) (encode_char c)
unfolding encode_char
encode_char-lt c h = ground arith

-- The bytes of a text are bytes.
pub as_bytes-lt : (s : Text) → All IsScalar s → All (λ b. b < 256) (as_bytes s)
unfolding as_bytes
as_bytes-lt [] h = tt
as_bytes-lt (c ∷ s) (hc, h) =
    All-append _ (encode_char c) (as_bytes s) (encode_char-lt c hc) (as_bytes-lt s h)

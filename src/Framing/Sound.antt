-- ===== src/Framing/Sound.antt =====
-- `decode_message` of src/protocol/framing.rs returns nothing but what was framed.
use sqlx_monetdb.Prelude.{
  ℕ, zero, suc, ◌+◌, ◌-◌, ◌^◌, ◌≤◌, ◌<◌, ◌≡◌, refl, sym, ap, subst, ◌∙◌, Bool, true, false, [], ◌∷◌,
  ◌++◌, append_assoc, arith, length, take, drop, length-take, take-append-drop, All, some,
  length-append, ltb, inl, inr, All-drop, Bool-cases,
}
use sqlx_monetdb.Framing.{
  Bytes, encode_header, decode_header, header_bytes, decode_loop, decode_message,
}
use sqlx_monetdb.Framing.Frames.{Frames, last, more}
use sqlx_monetdb.Framing.Header.{encode_header-decode_header}
use sqlx_monetdb.Framing.Decode.{round, decode_loop_step}

abbrev pub AreBytes : Bytes → Type 0
AreBytes = All (λ b. b < 256)

-- What a successful read of the loop has read, as blocks.
abbrev WasRead : Bytes → Bytes → ℕ → Bytes → ℕ → Type 0
WasRead s message offset m n =
    (p : Bytes) × (w : Bytes) × (r : Bytes) × (s ≡ w ++ r)
    × Frames (2 ^ 15 - 1) p w
    × (m ≡ message ++ p)
    × (n ≡ offset + length w)

-- A header is that of the payload which it announces, if that payload is there.
announced :
    (a b : ℕ) (s : Bytes) (is_last : Bool)
    → a < 256
    → b < 256
    → (decode_header a b).0 ≤ length s
    → (decode_header a b).1 ≡ is_last
    → (a ∷ b ∷ take (decode_header a b).0 s
        ≡ header_bytes (encode_header (length (take (decode_header a b).0 s)) is_last)
          ++ take (decode_header a b).0 s)
      × (length (take (decode_header a b).0 s) ≡ (decode_header a b).0)
announced a b s is_last ha hb h e =
    let len = (decode_header a b).0 in
    let size : length (take len s) ≡ len = omega (arith, length-take len s) in
    (rw (size, ← e, (encode_header-decode_header a b ha hb).0), size)

-- A round that goes on: the blocks behind it follow its own.
WasRead-more :
    (offset a b len : ℕ) (s message : Bytes) {m : Bytes} {n : ℕ}
    → (a ∷ b ∷ take len s ≡ header_bytes (encode_header (length (take len s)) false) ++ take len s)
    → length (take len s) ≡ len
    → len < 2 ^ 15
    → WasRead (drop len s) (message ++ take len s) (offset + 2 + len) m n
    → WasRead (a ∷ b ∷ s) message offset m n
WasRead-more offset a b len s message eq size bound (p, w, r, es, f, em, en) =
    let t = take len s in
    (
      t ++ p,
      (a ∷ b ∷ t) ++ w,
      r,
      ap (λ z. a ∷ b ∷ z)
          (sym (take-append-drop len s) ∙ ap (λ z. t ++ z) es ∙ sym (append_assoc t w r)),
      more t p _ w _ (omega (arith, size)) f refl
          (ap (λ z. z ++ w) eq ∙ append_assoc (header_bytes (encode_header (length t) false)) t w),
      em ∙ append_assoc message t p,
      omega (arith, en, size, length-append (a ∷ b ∷ t) w),
    )

-- The next round starts behind the block.
next_start :
    (before s : Bytes) (a b len : ℕ)
    → length (take len s) ≡ len
    → (before ++ (a ∷ b ∷ s) ≡ (before ++ (a ∷ b ∷ take len s)) ++ drop len s)
      × (length before + 2 + len ≡ length (before ++ (a ∷ b ∷ take len s)))
next_start before s a b len size = (
  ap (λ z. before ++ (a ∷ b ∷ z)) (sym (take-append-drop len s))
      ∙ sym (append_assoc before (a ∷ b ∷ take len s) (drop len s)),
  omega (arith, size, length-append before (a ∷ b ∷ take len s)),
)

loop_sound :
    (fuel : ℕ) (before s message : Bytes) {m : Bytes} {n : ℕ}
    → AreBytes s
    → decode_loop fuel (before ++ s) (length before) message ≡ some (m, n)
    → WasRead s message (length before) m n
loop_sound zero before s message hs h = unfold decode_loop in cc h
loop_sound (suc fuel) before [] message hs h =
    unfold round in cc (sym (decode_loop_step fuel before [] message) ∙ h)
loop_sound (suc fuel) before (a ∷ []) message hs h =
    unfold round in cc (sym (decode_loop_step fuel before (a ∷ []) message) ∙ h)
loop_sound (suc fuel) before (a ∷ b ∷ s) message {m} {n} (ha, (hb, hs)) h =
    let h' = sym (decode_loop_step fuel before (a ∷ b ∷ s) message) ∙ h in
    let len = (decode_header a b).0 in
    let bound = (encode_header-decode_header a b ha hb).1 in
    elim (Bool-cases (ltb (length s) len)) [
      | inl short ↦ unfold round in ground arith
      | inr fits ↦
          let le : len ≤ length s = ground arith in
          elim (Bool-cases (decode_header a b).1) [
            | inl is_last ↦
                let (eq, size) = announced a b s true ha hb le is_last in
                (
                  take len s,
                  a ∷ b ∷ take len s,
                  drop len s,
                  ap (λ z. a ∷ b ∷ z) (sym (take-append-drop len s)),
                  last _ _ (omega (arith, size, bound)) eq,
                  unfold round in ground arith,
                  unfold round in ground arith,
                )
            | inr goes_on ↦
                let (eq, size) = announced a b s false ha hb le goes_on in
                let (same, start) = next_start before s a b len size in
                let again : decode_loop fuel (before ++ (a ∷ b ∷ s)) (length before + 2 + len)
                      (message ++ take len s)
                    ≡ some (m, n) =
                  unfold round in ground arith in
                WasRead-more (length before) a b len s message eq size bound (
                  rw start (
                    loop_sound fuel (before ++ (a ∷ b ∷ take len s)) (drop len s)
                      (message ++ take len s) (All-drop _ len s hs) (rw (← same, ← start) again)))
          ]
    ]

-- Whatever is read from bytes below 256 was framed: the input is the framed message and what
-- stands behind it, and the count is the framed message's length.
pub decode_message_sound :
    (input : Bytes) {m : Bytes} {n : ℕ}
    → AreBytes input
    → decode_message input ≡ some (m, n)
    → (w : Bytes) × (rest : Bytes) × (input ≡ w ++ rest) × Frames (2 ^ 15 - 1) m w × (n ≡ length w)
unfolding decode_message
decode_message_sound input hs h =
    let (p, w, r, es, f, em, en) = loop_sound (suc (length input)) [] input [] hs h in
    (w, r, es, subst (λ z. Frames (2 ^ 15 - 1) z w) (sym em) f, en ∙ omega arith)

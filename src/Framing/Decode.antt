-- ===== src/Framing/Decode.antt =====
-- `decode_message` of src/protocol/framing.rs reads every framed message.
use sqlx_monetdb.Prelude.{
  ℕ, zero, suc, ◌+◌, ◌^◌, ◌<◌, ◌≡◌, refl, sym, ap, subst, ◌∙◌, Bool, true, false, [], ◌∷◌, ◌++◌,
  append_assoc, arith, length, take, drop, get_or, Option, none, some, length-append, ltb,
  if◌then◌else◌, take-append,
}
use sqlx_monetdb.Framing.{
  Bytes, encode_header, decode_header, header_bytes, decode_loop, decode_message,
}
use sqlx_monetdb.Framing.Frames.{Frames, last, more}
use sqlx_monetdb.Framing.Header.{decode_header-encode_header}

-- A round of the loop at an offset, over the bytes `before` the offset and those behind it.
get_or_at : (before s : Bytes) (a : ℕ) → get_or (before ++ a ∷ s) (length before) 0 ≡ a
get_or_at [] s a = refl
get_or_at (x ∷ before) s a = get_or_at before s a

get_or_next :
    (before s : Bytes) (a b : ℕ) → get_or (before ++ (a ∷ b ∷ s)) (length before + 1) 0 ≡ b
get_or_next [] s a b = refl
get_or_next (x ∷ before) s a b =
    subst (λ k. get_or (x ∷ before ++ (a ∷ b ∷ s)) k 0 ≡ b) {x = suc (length before + 1)}
      {y = length (x ∷ before) + 1} (omega arith) (get_or_next before s a b)

drop_next : (before s : Bytes) (a b : ℕ) → drop (length before + 2) (before ++ (a ∷ b ∷ s)) ≡ s
drop_next [] s a b = refl
drop_next (x ∷ before) s a b =
    subst (λ k. drop k (x ∷ before ++ (a ∷ b ∷ s)) ≡ s) {x = suc (length before + 2)}
      {y = length (x ∷ before) + 2} (omega arith) (drop_next before s a b)

-- What one round does with the bytes behind the offset.
unfoldable pub round : (Bytes → ℕ → Option (Bytes × ℕ)) → ℕ → Bytes → Bytes → Option (Bytes × ℕ)
round again offset [] message = none
round again offset (a ∷ []) message = none
round again offset (a ∷ b ∷ s) message =
    let (len, is_last) = decode_header a b in
    let message' = message ++ take len s in
    if ltb (length s) len
    then none
    else if is_last
    then some (message', offset + 2 + len)
    else again message' (offset + 2 + len)

abbrev pub again_in : ℕ → Bytes → Bytes → ℕ → Option (Bytes × ℕ)
again_in fuel input m k = decode_loop fuel input k m

pub decode_loop_step :
    (fuel : ℕ) (before s message : Bytes)
    → decode_loop (suc fuel) (before ++ s) (length before) message
      ≡ round (again_in fuel (before ++ s)) (length before) s message
unfolding decode_loop round
decode_loop_step fuel before [] message = ground (arith, length-append before [])
decode_loop_step fuel before (a ∷ []) message = ground (arith, length-append before (a ∷ []))
decode_loop_step fuel before (a ∷ b ∷ s) message =
    rw (get_or_at before (b ∷ s) a, get_or_next before s a b, drop_next before s a b)
      (ground (arith, length-append before (a ∷ b ∷ s)))

-- A round over one block and what follows it.
round_block :
    (again : Bytes → ℕ → Option (Bytes × ℕ)) (offset : ℕ) (p rest message : Bytes) (is_last : Bool)
    → length p < 2 ^ 15
    → round again offset (header_bytes (encode_header (length p) is_last) ++ (p ++ rest)) message
      ≡ (if is_last
          then some (message ++ p, offset + 2 + length p)
          else again (message ++ p) (offset + 2 + length p))
unfolding round
round_block again offset p rest message is_last h =
    rw ((decode_header-encode_header (length p) is_last h).0, take-append p rest)
      (ground (arith, length-append p rest))

-- The loop reads a framed message from any offset, whatever stands before and behind it.
loop-Frames :
    {limit : ℕ} {m w : Bytes}
    → Frames limit m w
    → limit < 2 ^ 15
    → (fuel : ℕ) (before rest message : Bytes) → length w < fuel
    → decode_loop fuel (before ++ (w ++ rest)) (length before) message
      ≡ some (message ++ m, length before + length w)
loop-Frames _ hl zero before rest message h = absurd (omega arith)
loop-Frames (last p w hp e) hl (suc fuel) before rest message h =
    decode_loop_step fuel before (w ++ rest) message
    ∙ ap (λ s. round (again_in fuel (before ++ (w ++ rest))) (length before) s message)
        (ap (λ s. s ++ rest) e)
    ∙ round_block (again_in fuel (before ++ (w ++ rest))) (length before) p rest message true
        (omega arith)
    ∙ ground (arith, ap length e)
loop-Frames (more p q m v w hp f em e) hl (suc fuel) before rest message h =
    let front = header_bytes (encode_header (length p) false) ++ p in
    let split : w ++ rest ≡ front ++ (v ++ rest) =
      ap (λ s. s ++ rest) e ∙ append_assoc front v rest in
    let size : length before + 2 + length p ≡ length (before ++ front) =
      omega (arith, length-append before front) in
    decode_loop_step fuel before (w ++ rest) message
    ∙ ap (λ s. round (again_in fuel (before ++ (w ++ rest))) (length before) s message) split
    ∙ round_block (again_in fuel (before ++ (w ++ rest))) (length before) p (v ++ rest) message
        false (omega arith)
    ∙ ap (λ s. decode_loop fuel s (length before + 2 + length p) (message ++ p))
        (ap (λ s. before ++ s) split ∙ sym (append_assoc before front (v ++ rest)))
    ∙ ap (λ k. decode_loop fuel ((before ++ front) ++ (v ++ rest)) k (message ++ p)) size
    ∙ loop-Frames f hl fuel (before ++ front) rest (message ++ p)
        (omega (arith, ap length e, length-append front v))
    ∙ ground (
      arith,
      ap length e,
      em,
      append_assoc message p q,
      length-append before front,
      length-append front v,
    )

-- A framed message whose blocks hold less than 2 ^ 15 bytes each is read back whole, and nothing
-- behind it is consumed.
pub decode_message-Frames :
    {limit : ℕ} {m w : Bytes} (rest : Bytes)
    → Frames limit m w
    → limit < 2 ^ 15
    → decode_message (w ++ rest) ≡ some (m, length w)
unfolding decode_message
decode_message-Frames {m} {w} rest f h =
    loop-Frames f h (suc (length (w ++ rest))) [] rest [] (omega (arith, length-append w rest))
    ∙ ground arith

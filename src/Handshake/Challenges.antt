-- ===== src/Handshake/Challenges.antt =====
-- The challenge line, `parse_challenge` of src/protocol/handshake.rs.
use sqlx_monetdb.Prelude.{
  ℕ, ◌-◌, ◌^◌, ◌≤◌, ◌≡◌, ◌≢◌, refl, ap, ◌∙◌, List, [], ◌∷◌, ◌++◌, Option, none, some, ok, All,
  arith, ◌==◌, ==_ne,
}
use sqlx_monetdb.Text.{Text, codes, text_eq, text_eq_refl, strip_prefix, strip_prefix-append, Lacks}
use sqlx_monetdb.Text.Trim.{trim_end_by, trim_end-EndsClear, EndsClear}
use sqlx_monetdb.Text.Split.{split, split-join, join}
use sqlx_monetdb.Text.Number.{print_unsigned}
use sqlx_monetdb.Text.Number.Print.{parse_unsigned-print_unsigned}
use sqlx_monetdb.Handshake.{
  Endian, big, little, next_level, option_level, parse_endian, challenge_of_fields, parse_challenge,
}

-- The extra field that states a level.
abbrev pub level_field : ℕ → Text
level_field n = codes "sql=" ++ print_unsigned n

-- A field that states no level.
abbrev pub StatesNone : Text → Type 0
StatesNone extra = strip_prefix extra (codes "sql=") ≡ none

option_level_kept :
    (level : Option ℕ) (extras : List Text)
    → All StatesNone extras
    → option_level level extras ≡ level
unfolding option_level
option_level_kept level [] h = refl
option_level_kept level (e ∷ extras) (he, h) =
    ap (λ o. option_level (next_level level o) extras) he ∙ option_level_kept level extras h

-- An `sql=` field with a number below 256 sets the level, whatever fields stand before it, if
-- none of those behind it begins with `sql=`.
pub option_level-level_field :
    (level : Option ℕ) (before after : List Text) (n : ℕ)
    → n ≤ 2 ^ 8 - 1
    → All StatesNone after
    → option_level level (before ++ (level_field n ∷ after)) ≡ some n
unfolding option_level
option_level-level_field level [] after n le h =
    ap (λ o. option_level (next_level level o) after)
      (strip_prefix-append (codes "sql=") (print_unsigned n))
    ∙ ap (λ o. option_level o after) (parse_unsigned-print_unsigned (2 ^ 8 - 1) n le)
    ∙ option_level_kept (some n) after h
option_level-level_field level (e ∷ before) after n le h =
    option_level-level_field (next_level level (strip_prefix e (codes "sql="))) before after n le h

abbrev pub endian_text : Endian → Text
endian_text big = codes "BIG"
endian_text little = codes "LIT"

-- The line of a server: six fields and the extra ones, each behind a colon.
unfoldable pub challenge_line : Text → Text → List Text → Endian → Text → List Text → Text
challenge_line salt server_type hashes endian server_hash extras =
    join
      (salt
        ∷ server_type
        ∷ codes "9"
        ∷ join hashes b','
        ∷ endian_text endian
        ∷ server_hash
        ∷ extras)
      b':'
    ++ b':' ∷ []

endian_Lacks : (e : Endian) → Lacks b':' (endian_text e)
endian_Lacks big = omega arith
endian_Lacks little = omega arith

pub parse_endian_text : (e : Endian) → parse_endian (endian_text e) ≡ ok e
unfolding parse_endian text_eq
parse_endian_text big = refl
parse_endian_text little = refl

-- The end of a line whose last field is not empty and holds no colon.
abbrev pub HasEnd : List Text → Type 0
HasEnd [] = Unit
HasEnd (p ∷ []) = p ≢ []
HasEnd (p ∷ q ∷ ps) = HasEnd (q ∷ ps)

EndsClear-of_Lacks : (s : Text) → Lacks b':' s → EndsClear (λ c. c == b':') s
EndsClear-of_Lacks [] h = tt
EndsClear-of_Lacks (c ∷ []) (hc, h) = ==_ne c b':' hc
EndsClear-of_Lacks (c ∷ d ∷ s) (hc, h) = EndsClear-of_Lacks (d ∷ s) h

EndsClear-behind :
    (t s : Text)
    → (s ≢ []) × EndsClear (λ c. c == b':') s
    → (t ++ (b':' ∷ s) ≢ []) × EndsClear (λ c. c == b':') (t ++ (b':' ∷ s))
EndsClear-behind t [] (ne, _) = absurd (ne refl)
EndsClear-behind [] (c ∷ s) (ne, h) = ((λ e. cc e), h)
EndsClear-behind (a ∷ []) (c ∷ s) (ne, h) = ((λ e. cc e), h)
EndsClear-behind (a ∷ b ∷ t) (c ∷ s) (ne, h) =
    ((λ e. cc e), (EndsClear-behind (b ∷ t) (c ∷ s) (ne, h)).1)

EndsClear-join :
    (p : Text) (ps : List Text)
    → All (Lacks b':') (p ∷ ps)
    → HasEnd (p ∷ ps)
    → (join (p ∷ ps) b':' ≢ []) × EndsClear (λ c. c == b':') (join (p ∷ ps) b':')
unfolding join
EndsClear-join p [] (h, _) ne = (ne, EndsClear-of_Lacks p h)
EndsClear-join p (q ∷ ps) (h, hs) ne =
    EndsClear-behind p (join (q ∷ ps) b':') (EndsClear-join q ps hs ne)

-- A challenge line of version 9 is read field by field, the list of hashes item by item, the byte
-- order, and the level from the extra fields, for all fields without a colon, hashes without a
-- comma and a last field that is not empty.
pub parse_challenge-challenge_line :
    (salt server_type hash : Text) (hashes : List Text) (e : Endian) (server_hash : Text)
    (extras : List Text)
    → Lacks b':' salt
    → Lacks b':' server_type
    → Lacks b':' (join (hash ∷ hashes) b',')
    → All (Lacks b',') (hash ∷ hashes)
    → All (Lacks b':') (server_hash ∷ extras)
    → HasEnd (server_hash ∷ extras)
    → parse_challenge (challenge_line salt server_type (hash ∷ hashes) e server_hash extras)
      ≡ ok (record {
        salt = salt;
        server_type = server_type;
        protocol_version = codes "9";
        hashes = hash ∷ hashes;
        server_endian = e;
        server_hash = server_hash;
        handshake_option_level = option_level none extras;
      })
unfolding challenge_line parse_challenge
parse_challenge-challenge_line salt server_type hash hashes e server_hash extras hs ht hh hc he hx =
    let listed = join (hash ∷ hashes) b',' in
    let fields = server_type ∷ codes "9" ∷ listed ∷ endian_text e ∷ server_hash ∷ extras in
    let lacks : All (Lacks b':') (salt ∷ fields) =
      (hs, (ht, ((omega arith), (hh, (endian_Lacks e, he))))) in
    let line = join (salt ∷ fields) b':' in
    let trimmed : trim_end_by (λ c. c == b':') (line ++ b':' ∷ []) ≡ line =
      trim_end-EndsClear (λ c. c == b':') line (b':' ∷ []) (EndsClear-join salt fields lacks hx).1
        (refl, tt) in
    ap (λ l. challenge_of_fields l (split l b':')) trimmed
    ∙ ap (challenge_of_fields line) (split-join salt fields b':' lacks)
    ∙ rw ((text_eq_refl (codes "9")), (parse_endian_text e), (split-join hash hashes b',' hc))

-- ===== src/Handshake/Accepted.antt =====
-- Which challenge lines `parse_challenge` of src/protocol/handshake.rs accepts, and as what.
use sqlx_monetdb.Prelude.{
  bind-ok, ◌≡◌, ◌↔◌, refl, ap, ◌∙◌, sym, subst, List, [], ◌∷◌, none, ok, Bool-cases, inl, inr, ◌==◌,
}
use sqlx_monetdb.Text.{Text, codes, text_eq, text_eq_iff, text_eq_refl}
use sqlx_monetdb.Text.Trim.{trim_end_by}
use sqlx_monetdb.Text.Split.{split}
use sqlx_monetdb.Handshake.{
  Endian, big, little, Challenge, option_level, parse_endian, challenge_of_fields, parse_challenge,
}
use sqlx_monetdb.Handshake.Challenges.{endian_text, parse_endian_text}

-- The fields of a line of protocol version 9, and the challenge that they state.
pub data States : List Text → Challenge → Type 0 where
  version_9 :
      (salt server_type listed : Text) (e : Endian) (server_hash : Text) (extras : List Text)
      → States
          (salt ∷ server_type ∷ codes "9" ∷ listed ∷ endian_text e ∷ server_hash ∷ extras)
          (record {
            salt = salt;
            server_type = server_type;
            protocol_version = codes "9";
            hashes = split listed b',';
            server_endian = e;
            server_hash = server_hash;
            handshake_option_level = option_level none extras;
          })

parse_endian_sound : (field : Text) (e : Endian) → parse_endian field ≡ ok e → field ≡ endian_text e
unfolding parse_endian
parse_endian_sound field e h = elim (Bool-cases (text_eq field (codes "BIG"))) [
  | inl y ↦
      let same : big ≡ e = cc (rw y at h) in
      (text_eq_iff field (codes "BIG")).0 y ∙ ap endian_text same
  | inr n ↦ elim (Bool-cases (text_eq field (codes "LIT"))) [
    | inl y ↦
        let same : little ≡ e = cc (rw (n, y) at h) in
        (text_eq_iff field (codes "LIT")).0 y ∙ ap endian_text same
    | inr n' ↦ cc (rw (n, n') at h)
  ]
]

fields_sound :
    (line : Text) (fields : List Text) (c : Challenge)
    → challenge_of_fields line fields ≡ ok c
    → States fields c
unfolding challenge_of_fields
fields_sound line [] c h = cc h
fields_sound line (a ∷ []) c h = cc h
fields_sound line (a ∷ b ∷ []) c h = cc h
fields_sound line (a ∷ b ∷ v ∷ []) c h = cc h
fields_sound line (a ∷ b ∷ v ∷ l ∷ []) c h = cc h
fields_sound line (a ∷ b ∷ v ∷ l ∷ e ∷ []) c h = cc h
fields_sound line (a ∷ b ∷ v ∷ l ∷ f ∷ s ∷ extras) c h = elim (Bool-cases (text_eq v (codes "9"))) [
  | inl y ↦
      let (e, read, h1) = bind-ok (parse_endian f) _ (rw y at h) in
      let nine : v ≡ codes "9" = (text_eq_iff v (codes "9")).0 y in
      let order : f ≡ endian_text e = parse_endian_sound f e read in
      let stated : Text → Challenge = λ w. record {
        salt = a;
        server_type = b;
        protocol_version = w;
        hashes = split l b',';
        server_endian = e;
        server_hash = s;
        handshake_option_level = option_level none extras;
      } in
      let same : stated v ≡ c = cc h1 in
      subst (λ o. States (a ∷ b ∷ v ∷ l ∷ o ∷ s ∷ extras) c) (sym order)
        (subst (States (a ∷ b ∷ v ∷ l ∷ endian_text e ∷ s ∷ extras)) same (
          subst (λ w. States (a ∷ b ∷ w ∷ l ∷ endian_text e ∷ s ∷ extras) (stated w)) (sym nine)
            (version_9 a b l e s extras)))
  | inr n ↦ cc (rw n at h)
]

fields_complete :
    (line : Text) (fields : List Text) (c : Challenge)
    → States fields c
    → challenge_of_fields line fields ≡ ok c
unfolding challenge_of_fields
fields_complete line _ _ (version_9 salt server_type listed e server_hash extras) =
    rw (text_eq_refl (codes "9"), parse_endian_text e) refl

-- A challenge line is accepted exactly if, without the colons at its end, it has at least six fields
-- between colons of which the third is 9 and the fifth is BIG or LIT; the challenge is then the one
-- that the fields state.
pub parse_challenge-States :
    (raw : Text) (c : Challenge)
    → (parse_challenge raw ≡ ok c) ↔ States (split (trim_end_by (λ x. x == b':') raw) b':') c
unfolding parse_challenge
parse_challenge-States raw c =
    let line = trim_end_by (λ x. x == b':') raw in
    (fields_sound line (split line b':') c, fields_complete line (split line b':') c)

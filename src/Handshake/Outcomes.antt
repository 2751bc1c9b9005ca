-- ===== src/Handshake/Outcomes.antt =====
-- What a password hash comes to on every challenge, `compute_password_hash` of
-- src/protocol/handshake.rs.
use sqlx_monetdb.Prelude.{
  ℕ, ◌≡◌, ◌⊎◌, refl, inl, inr, List, ◌∷◌, ◌++◌, Option, none, some, Result, ok, err, Fault, error,
  panic, subst, Bool-cases, Option-cases, All-Memᴰ, if◌then◌else◌,
}
use mathlib.Core.List.{Memᴰ}
use sqlx_monetdb.Text.{Text, text_eq, text_eq_iff}
use sqlx_monetdb.Text.Utf8.{as_bytes}
use sqlx_monetdb.Error.{MonetError, handshake, unsupported_server_hash, no_mutual_hash}
use sqlx_monetdb.Handshake.{
  Challenge, Hashes, hash_priority, select_hash_algorithm, hash_hex, compute_password_hash,
}
use sqlx_monetdb.Handshake.Passwords.{
  IsBest, select_hash_algorithm-IsBest, HasDigest, hash_hex_priority, chosen_digest,
}

-- A text of a list is found, or the search goes on.
in_list :
    (a c : Text) (cs : List Text) (here : Text) (o : Option Text) {d : Text}
    → (o ≡ some d → Memᴰ a cs)
    → (if text_eq a c then some here else o) ≡ some d
    → Memᴰ a (c ∷ cs)
in_list a c cs here o later h = elim (Bool-cases (text_eq a c)) [
  | inl e ↦ Memᴰ.head ((text_eq_iff a c).0 e)
  | inr e ↦ Memᴰ.tail (later (rw e at h))
]

module _ (crates : Hashes) where
  digest-Memᴰ :
      (a : Text) (input : List ℕ) {d : Text}
      → hash_hex crates a input ≡ some d
      → Memᴰ a hash_priority
  unfolding hash_hex
  digest-Memᴰ a input h =
      in_list a _ _ _ _
        (in_list a _ _ _ _ (
          in_list a _ _ _ _
            (in_list a _ _ _ _ (in_list a _ _ _ _ (in_list a _ _ _ none (λ e. cc e))))))
        h

  no_digest : (a : Text) (input : List ℕ) → hash_hex crates a input ≡ none → ¬ Memᴰ a hash_priority
  no_digest a input e m =
      let (d, ed) = All-Memᴰ (HasDigest crates) hash_priority (hash_hex_priority crates) m input in
      cc (e, ed)

  -- The hash of the password by the server's own algorithm, and then that of its hexadecimal digits
  -- and the salt by the best algorithm that both sides know.
  abbrev pub Outcome : Challenge → Text → Result (Fault MonetError) (Text × Text) → Type 0
  Outcome challenge password (ok (algo, digest)) =
      (prehashed : Text) × Memᴰ challenge.server_hash hash_priority
      × (hash_hex crates challenge.server_hash (as_bytes password) ≡ some prehashed)
      × IsBest hash_priority challenge.hashes (some algo)
      × (hash_hex crates algo (as_bytes prehashed ++ as_bytes challenge.salt) ≡ some digest)
  Outcome challenge password (err (error e)) =
      (¬ Memᴰ challenge.server_hash hash_priority
        × (e ≡ handshake (unsupported_server_hash challenge.server_hash)))
      ⊎ (Memᴰ challenge.server_hash hash_priority
          × IsBest hash_priority challenge.hashes none
          × (e ≡ handshake (no_mutual_hash challenge.hashes)))
  Outcome challenge password (err panic) = ⊥

  -- On every challenge and password: a password hash is that of the hexadecimal digits of the
  -- password's digest, by the server's algorithm, with the salt behind them, by the first algorithm
  -- of the priority list that the server offers. The error is that of an unsupported algorithm
  -- exactly where the server's algorithm is not in that list, and otherwise that of no mutual
  -- algorithm, where the server offers none of the list. There is no panic.
  pub compute_password_hash-Outcome :
      (challenge : Challenge) (password : Text)
      → Outcome challenge password (compute_password_hash crates challenge password)
  unfolding compute_password_hash
  compute_password_hash-Outcome challenge password =
      elim (Option-cases (hash_hex crates challenge.server_hash (as_bytes password))) [
        | inl e ↦ rw e (inl (no_digest challenge.server_hash (as_bytes password) e, refl))
        | inr (pre, e) ↦
            let known = digest-Memᴰ challenge.server_hash (as_bytes password) e in
            let best = select_hash_algorithm-IsBest challenge.hashes in
            elim (Option-cases (select_hash_algorithm challenge.hashes)) [
              | inl e' ↦
                  rw (e, e')
                    (inr (known, subst (IsBest hash_priority challenge.hashes) e' best, refl))
              | inr (a, e') ↦
                  let (d, ed) =
                    chosen_digest crates challenge a e' (as_bytes pre ++ as_bytes challenge.salt) in
                  rw (e, e', ed)
                    (pre, known, e, subst (IsBest hash_priority challenge.hashes) e' best, ed)
            ]
      ]

-- ===== src/Handshake/Passwords.antt =====
-- The choice of a hash and the password hash, `select_hash_algorithm` and `compute_password_hash`
-- of src/protocol/handshake.rs.
use sqlx_monetdb.Prelude.{
  ℕ, ◌≡◌, ◌≢◌, refl, ap, sym, inl, inr, true, false, List, [], ◌∷◌, ◌++◌, Option, none, some, err,
  panic, All, subst, Bool-cases, Option-cases,
}
use mathlib.Core.List.{Memᴰ}
use sqlx_monetdb.Text.{Text, text_eq, text_eq_iff}
use sqlx_monetdb.Text.Utf8.{as_bytes}
use sqlx_monetdb.Handshake.{
  Challenge, Hashes, hash_priority, offers, first_offered, select_hash_algorithm, hash_hex,
  compute_password_hash,
}

offers-Memᴰ : (hs : List Text) (a : Text) → offers hs a ≡ true → Memᴰ a hs
unfolding offers
offers-Memᴰ [] a h = cc h
offers-Memᴰ (x ∷ hs) a h = elim (Bool-cases (text_eq x a)) [
  | inl e ↦ Memᴰ.head (sym ((text_eq_iff x a).0 e))
  | inr e ↦ Memᴰ.tail (offers-Memᴰ hs a (rw e at h))
]

not-Memᴰ : {a : Text} (hs : List Text) → offers hs a ≡ false → ¬ Memᴰ a hs
unfolding offers
not-Memᴰ [] h m = elim m [ ]
not-Memᴰ {a} (x ∷ hs) h (Memᴰ.head e) = cc (h, (text_eq_iff x a).1 (sym e))
not-Memᴰ {a} (x ∷ hs) h (Memᴰ.tail m) = elim (Bool-cases (text_eq x a)) [
  | inl e ↦ cc (rw e at h)
  | inr e ↦ not-Memᴰ hs (rw e at h) m
]

-- The best of a list of candidates that the server offers, if it offers one.
abbrev pub IsBest : List Text → List Text → Option Text → Type 0
IsBest candidates hs (some a) =
    (before : List Text) × (after : List Text) × (candidates ≡ before ++ (a ∷ after))
    × Memᴰ a hs
    × All (λ c. ¬ Memᴰ c hs) before
IsBest candidates hs none = All (λ c. ¬ Memᴰ c hs) candidates

first_offered-IsBest :
    (candidates hs : List Text) → IsBest candidates hs (first_offered candidates hs)
unfolding first_offered
first_offered-IsBest [] hs = tt
first_offered-IsBest (c ∷ cs) hs = elim (Bool-cases (offers hs c)) [
  | inl e ↦ rw e ([], cs, refl, offers-Memᴰ hs c e, tt)
  | inr e ↦ rw e (later (first_offered cs hs) (not-Memᴰ hs e) (first_offered-IsBest cs hs))
]
  where
    later : (o : Option Text) → ¬ Memᴰ c hs → IsBest cs hs o → IsBest (c ∷ cs) hs o
    later none no_c h = (no_c, h)
    later (some a) no_c (before, after, e, m, h) =
        (c ∷ before, after, ap (λ r. c ∷ r) e, m, (no_c, h))

-- The algorithm chosen is offered by the server and stands in the priority list, none of those
-- before it is offered, and where none is chosen the server offers no algorithm of the list.
pub select_hash_algorithm-IsBest :
    (hs : List Text) → IsBest hash_priority hs (select_hash_algorithm hs)
unfolding select_hash_algorithm
select_hash_algorithm-IsBest hs = first_offered-IsBest hash_priority hs

first_offered-All :
    (P : Text → Type 0) (candidates hs : List Text) (a : Text)
    → All P candidates
    → first_offered candidates hs ≡ some a
    → P a
unfolding first_offered
first_offered-All P [] hs a h e = cc e
first_offered-All P (c ∷ cs) hs a (hc, h) e = elim (Bool-cases (offers hs c)) [
  | inl yes_c ↦
      let same : ◌≡◌ {A = Option Text} (some c) (some a) = rw yes_c at e in
      subst P {x = c} {y = a} (cc) hc
  | inr no_c ↦ first_offered-All P cs hs a h (rw no_c at e)
]

module _ (crates : Hashes) where
  -- An algorithm that has a digest.
  abbrev pub HasDigest : Text → Type 0
  HasDigest a = (input : List ℕ) → (d : Text) × (hash_hex crates a input ≡ some d)

  pub hash_hex_priority : All HasDigest hash_priority
  unfolding hash_hex text_eq
  hash_hex_priority = (
    (λ i. (_, refl)),
    (
      (λ i. (_, refl)),
      ((λ i. (_, refl)), ((λ i. (_, refl)), ((λ i. (_, refl)), ((λ i. (_, refl)), tt)))),
    ),
  )

  pub chosen_digest :
      (challenge : Challenge) (a : Text)
      → select_hash_algorithm challenge.hashes ≡ some a
      → HasDigest a
  unfolding select_hash_algorithm
  chosen_digest challenge a e =
      first_offered-All HasDigest hash_priority challenge.hashes a hash_hex_priority e

  -- Whatever the server offers and whatever the password, the `expect` on the response hash never
  -- panics.
  pub compute_password_hash-ne-panic :
      (challenge : Challenge) (password : Text)
      → compute_password_hash crates challenge password ≢ err panic
  unfolding compute_password_hash
  compute_password_hash-ne-panic challenge password =
      elim (Option-cases (hash_hex crates challenge.server_hash (as_bytes password))) [
        | inl e ↦ rw e (λ h. cc h)
        | inr (pre, e) ↦ elim (Option-cases (select_hash_algorithm challenge.hashes)) [
          | inl e' ↦ rw (e, e') (λ h. cc h)
          | inr (a, e') ↦
              let (d, ed) =
                chosen_digest challenge a e' (as_bytes pre ++ as_bytes challenge.salt) in
              rw (e, e', ed) (λ h. cc h)
        ]
      ]

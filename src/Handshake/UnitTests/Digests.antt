-- ===== src/Handshake/UnitTests/Digests.antt =====
-- The unit tests of src/protocol/handshake.rs on hashes. The digests are those of other crates: the
-- known answers are a hypothesis on them, and the test says that each name is given its own.
use sqlx_monetdb.Prelude.{◌≡◌, refl, ap, [], ◌∷◌, ◌++◌, none, some, ok}
use sqlx_monetdb.Text.{Text, codes}
use sqlx_monetdb.Text.Utf8.{as_bytes}
use sqlx_monetdb.Handshake.{
  Challenge, little, Hashes, select_hash_algorithm, hash_hex, compute_password_hash,
}

abbrev HashPriorityPicksStrongestMutualAlgorithm : Type 0
HashPriorityPicksStrongestMutualAlgorithm =
    select_hash_algorithm (codes "SHA1" ∷ codes "MD5" ∷ codes "SHA256" ∷ []) ≡ some (codes "SHA256")

hash_priority_picks_strongest_mutual_algorithm : HashPriorityPicksStrongestMutualAlgorithm
unfolding select_hash_algorithm sqlx_monetdb.Text.text_eq
hash_priority_picks_strongest_mutual_algorithm = refl

abbrev HashPriorityReturnsNoneWhenNoOverlap : Type 0
HashPriorityReturnsNoneWhenNoOverlap = select_hash_algorithm (codes "MD5" ∷ []) ≡ none

hash_priority_returns_none_when_no_overlap : HashPriorityReturnsNoneWhenNoOverlap
unfolding select_hash_algorithm sqlx_monetdb.Text.text_eq
hash_priority_returns_none_when_no_overlap = refl

abbrev sha1_abc : Text
sha1_abc = codes "a9993e364706816aba3e25717850c26c9cd0d89d"

abbrev sha256_abc : Text
sha256_abc = codes "ba7816bf8f01cfea414140de5dae2223b00361a396177a9cb410ff61f20015ad"

abbrev sha224_abc : Text
sha224_abc = codes "23097d223405d8228642a477bda255b32aadbce4bda0b3f7e36c9da7"

abbrev sha384_abc : Text
sha384_abc =
    codes "cb00753f45a35e8bb5a03d699ac65007272c32ab0eded163"
    ++ codes "1a8b605a43ff5bed8086072ba1e7cc2358baeca134c825a7"

abbrev sha512_abc : Text
sha512_abc =
    codes "ddaf35a193617abacc417349ae20413112e6fa4e89a97ea20a9eeee64b55d39a"
    ++ codes "2192992a274fc1a836ba3c23a3feebbd454d4423643ce80e2a9ac94fa54ca49f"

abbrev ripemd160_abc : Text
ripemd160_abc = codes "8eb208f7e05d987a9b044a8e98c6b087f15a0bfc"

module _ (crates : Hashes) where
  -- The vectors of the standards for the input "abc".
  record KnownAnswers : Type 0 where
    sha1 : crates.hex_encode (crates.sha1 (codes "abc")) ≡ sha1_abc
    sha256 : crates.hex_encode (crates.sha256 (codes "abc")) ≡ sha256_abc
    sha224 : crates.hex_encode (crates.sha224 (codes "abc")) ≡ sha224_abc
    sha384 : crates.hex_encode (crates.sha384 (codes "abc")) ≡ sha384_abc
    sha512 : crates.hex_encode (crates.sha512 (codes "abc")) ≡ sha512_abc
    ripemd160 : crates.hex_encode (crates.ripemd160 (codes "abc")) ≡ ripemd160_abc

  abbrev HashHexKnownAnswerVectorsForAbc : Type 0
  HashHexKnownAnswerVectorsForAbc =
      (hash_hex crates (codes "SHA1") (codes "abc") ≡ some sha1_abc)
      × (hash_hex crates (codes "SHA256") (codes "abc") ≡ some sha256_abc)
      × (hash_hex crates (codes "SHA224") (codes "abc") ≡ some sha224_abc)
      × (hash_hex crates (codes "SHA384") (codes "abc") ≡ some sha384_abc)
      × (hash_hex crates (codes "SHA512") (codes "abc") ≡ some sha512_abc)
      × (hash_hex crates (codes "RIPEMD160") (codes "abc") ≡ some ripemd160_abc)
      × (hash_hex crates (codes "MD5") (codes "abc") ≡ none)

  hash_hex_known_answer_vectors_for_abc : KnownAnswers → HashHexKnownAnswerVectorsForAbc
  unfolding hash_hex sqlx_monetdb.Text.text_eq
  hash_hex_known_answer_vectors_for_abc k = (
    ap some k.sha1,
    ap some k.sha256,
    ap some k.sha224,
    ap some k.sha384,
    ap some k.sha512,
    ap some k.ripemd160,
    refl,
  )

  abbrev double_hash_challenge : Challenge
  double_hash_challenge = record {
    salt = codes "s0m3salt";
    server_type = codes "mserver";
    protocol_version = codes "9";
    hashes = codes "SHA256" ∷ codes "SHA1" ∷ [];
    server_endian = little;
    server_hash = codes "SHA1";
    handshake_option_level = none;
  }

  abbrev ComputePasswordHashMatchesManualDoubleHash : Type 0
  ComputePasswordHashMatchesManualDoubleHash =
      (algo : Text) × (digest : Text) × (prehashed : Text) × (expected : Text)
      × (compute_password_hash crates double_hash_challenge (codes "hunter2") ≡ ok (algo, digest))
      × (algo ≡ codes "SHA256")
      × (hash_hex crates (codes "SHA1") (codes "hunter2") ≡ some prehashed)
      × (hash_hex crates (codes "SHA256") (as_bytes prehashed ++ codes "s0m3salt") ≡ some expected)
      × (digest ≡ expected)

  compute_password_hash_matches_manual_double_hash : ComputePasswordHashMatchesManualDoubleHash
  unfolding as_bytes sqlx_monetdb.Text.Utf8.encode_char compute_password_hash hash_hex
      sqlx_monetdb.Text.text_eq select_hash_algorithm
  compute_password_hash_matches_manual_double_hash = (_, _, _, _, refl, refl, refl, refl, refl)

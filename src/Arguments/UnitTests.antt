-- ===== src/Arguments/UnitTests.antt =====
-- The unit tests of src/arguments.rs, under their names, as statements of the model.
use sqlx_monetdb.Prelude.{◌≡◌, refl, [], ◌∷◌, ok, err}
use sqlx_monetdb.Text.{codes}
use sqlx_monetdb.Error.{SqlxError}
use sqlx_monetdb.Arguments.{MonetArguments, new_arguments, substitute_into}

abbrev SubstitutesPlaceholdersInOrder : Type 0
SubstitutesPlaceholdersInOrder =
    substitute_into (record { literals = codes "42" ∷ codes "'hi'" ∷ [] })
      (codes "SELECT * FROM t WHERE a = ? AND b = ?")
    ≡ ok (codes "SELECT * FROM t WHERE a = 42 AND b = 'hi'")

substitutes_placeholders_in_order : SubstitutesPlaceholdersInOrder
unfolding substitute_into
substitutes_placeholders_in_order = refl

abbrev MismatchedPlaceholderCountIsAnError : Type 0
MismatchedPlaceholderCountIsAnError =
    let args : MonetArguments = record { literals = codes "42" ∷ [] } in
    ((e : SqlxError) × (substitute_into args (codes "SELECT * FROM t WHERE a = ? AND b = ?")
        ≡ err e))
    × ((e : SqlxError) × (substitute_into args (codes "SELECT * FROM t") ≡ err e))

mismatched_placeholder_count_is_an_error : MismatchedPlaceholderCountIsAnError
unfolding substitute_into
mismatched_placeholder_count_is_an_error = ((_, refl), (_, refl))

abbrev NoPlaceholdersNoArgumentsRoundTrips : Type 0
NoPlaceholdersNoArgumentsRoundTrips =
    substitute_into new_arguments (codes "SELECT 1") ≡ ok (codes "SELECT 1")

no_placeholders_no_arguments_round_trips : NoPlaceholdersNoArgumentsRoundTrips
unfolding substitute_into
no_placeholders_no_arguments_round_trips = refl

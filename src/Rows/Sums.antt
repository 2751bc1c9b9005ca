-- ===== src/Rows/Sums.antt =====
-- The count of a combined result, `extend` of `MonetQueryResult` in src/database.rs.
use sqlx_monetdb.Prelude.{ℕ, ◌+◌, ◌%◌, ◌^◌, ◌<◌, ◌≡◌, List, [], ◌∷◌, arith}
use sqlx_monetdb.Rows.{MonetQueryResult, extend}

-- The sum of the counts, without a bound.
unfoldable pub total : List MonetQueryResult → ℕ
total [] = 0
total (r ∷ results) = r.rows_affected + total results

-- A combined result counts the rows of all its parts modulo 2 ^ 64, so exactly where the sum is
-- below that bound. The counts are of 64 bits.
pub extend-total :
    (result : MonetQueryResult) (results : List MonetQueryResult)
    → result.rows_affected < 2 ^ 64
    → ((extend result results).rows_affected ≡ (result.rows_affected + total results) % 2 ^ 64)
      × (result.rows_affected + total results < 2 ^ 64
          → (extend result results).rows_affected ≡ result.rows_affected + total results)
unfolding extend total
extend-total result [] h = (omega (arith, h), λ _. omega arith)
extend-total result (r ∷ results) h =
    let next : MonetQueryResult = record {
      rows_affected = (result.rows_affected + r.rows_affected) % 2 ^ 64;
    } in
    let (same, _) = extend-total next results (omega arith) in
    (omega (arith, same), λ small. omega (arith, same, small))

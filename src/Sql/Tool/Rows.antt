-- ===== src/Sql/Tool/Rows.antt =====
-- The rows that the `sql` tool of src/carve/core/sql/tool.py shows of an answer.
use carve.Common.{ℕ, false, ◌+◌, String, List, [], ◌∷◌, ◌≡◌, refl, arith, ltb, min}
use carve.Common.Text.{is_blank}
use carve.Common.Slices.{length, take, length-take, take-take}
use carve.Common.Result.{ok}
use carve.Sql.Classify.{read, is_read, classify}
use carve.Sql.Tool.{Tool, text, require_sql, queried, selected, run_text, run_required, run_sql}

module _ {Row : Type 0} where
  more_than :
      (cap : ℕ) (answer : List Row)
      → ltb cap (length (take (cap + 1) answer)) ≡ ltb cap (length answer)
  more_than cap answer = ground (arith, length-take (cap + 1) answer)

  -- In every mode a text that is not blank and is classified as a read is sent once to the read runner; if that returns
  -- the first `limit` rows of an answer, the tool shows the first rows up to its cap, counts what it
  -- shows, and marks the result as truncated exactly when the answer has more rows than the cap.
  pub run_sql-read :
      (t : Tool Row) (sql : String) (answer : List Row)
      → is_blank sql ≡ false
      → classify t.parse sql t.dialect ≡ ok read
      → t.read_runner sql (t.row_cap + 1) ≡ ok (take (t.row_cap + 1) answer)
      → run_sql t (text sql) ≡ (
        ok (
            selected
              (take t.row_cap answer)
              (min t.row_cap (length answer))
              (ltb t.row_cap (length answer))),
        queried sql (t.row_cap + 1) ∷ [],
      )
  unfolding run_sql require_sql run_required run_text is_read
  run_sql-read t sql answer filled h r = rw filled (
      rw h (
        rw r (
          rw (take-take t.row_cap (t.row_cap + 1) answer (omega arith))
            (rw (length-take t.row_cap answer) (rw (more_than t.row_cap answer) refl)))))

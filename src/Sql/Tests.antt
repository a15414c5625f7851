-- ===== src/Sql/Tests.antt =====
-- Small texts, a parser that knows them, and a tool in two modes.
use carve.Common.{
  ℕ, String, Bool, true, false, Option, none, some, [], ◌∷◌, ◌≡◌, ◌↔◌, refl, string_eq, nat_eq,
  ◌==◌, if◌then◌else◌,
}
use carve.Common.Text.{is_blank}
use carve.Common.Slices.{length, take}
use carve.Common.Result.{ok, err}
use carve.Permissions.Modes.{PermissionMode, plan, deploy, mode_permits, role_for}
use carve.Sql.Dialects.{normalize_dialect}
use carve.Sql.Classify.{
  write, is_read, Node, select, drop, semicolon, Statement, classify_one, Parser, classify,
  is_read_only,
}
use carve.Sql.Classify.ReadOnly.{AllReads, is_read_only-AllReads}
use carve.Sql.Tool.{
  no_rows, no_sql, Tool, text, require_sql, run_text, run_required, queried, asked, executed,
  selected, run_sql,
}
use carve.Sql.Tool.Rows.{run_sql-read}
use carve.Sql.Tool.Gate.{Has, first, MayWrite, run_sql-MayWrite, below_deploy_reads}

abbrev of : Node → Bool → Option Statement
of node has_into = some (record { node = node; has_into = has_into })

abbrev parser : Parser
parser sql name =
    if sql == "select 1; -- one"
    then ok (of select false ∷ of semicolon false ∷ none ∷ [])
    else if sql == "select 1; drop table t"
    then ok (of select false ∷ of drop false ∷ [])
    else if sql == "select 1 into t"
    then ok (of select true ∷ [])
    else err "no parse"

abbrev tool : PermissionMode → Option (String → Bool) → Tool ℕ
tool mode approver = record {
  parse = parser;
  dialect = " DuckDB ";
  mode = mode;
  read_runner = λ sql limit. ok (take limit (1 ∷ 2 ∷ 3 ∷ []));
  write_runner = some (λ sql. ok no_rows);
  approver = approver;
  row_cap = 2;
}

refuses_blank : run_sql (tool deploy none) (text " ") ≡ (err no_sql, [])
unfolding run_sql require_sql run_required run_text is_blank nat_eq
refuses_blank = refl

aliased : normalize_dialect "PG" ≡ ok "postgres"
unfolding normalize_dialect string_eq nat_eq
aliased = refl

into_writes : classify parser "select 1 into t" "duckdb" ≡ ok write
unfolding classify normalize_dialect string_eq nat_eq classify_one
into_writes = refl

asks_before_drop :
    (run_sql (tool deploy (some (λ prompt. false))) (text "select 1; drop table t")).1
    ≡ (asked "Approve destructive DDL?\nselect 1; drop table t" ∷ [])
unfolding run_sql require_sql run_required run_text is_blank classify normalize_dialect string_eq
    nat_eq classify_one is_read role_for
asks_before_drop = refl

is_read_only-AllReads_example :
    (is_read_only parser "select 1; -- one" "duckdb" ≡ true)
    ↔ AllReads parser "select 1; -- one" "duckdb"
is_read_only-AllReads_example = is_read_only-AllReads parser "select 1; -- one" "duckdb"

run_sql-MayWrite_example :
    Has (executed "select 1 into t") (run_sql (tool deploy none) (text "select 1 into t")).1 ↔ (
      text "select 1 into t" ≡ text "select 1 into t"
      × MayWrite (tool deploy none) "select 1 into t")
run_sql-MayWrite_example =
    run_sql-MayWrite (tool deploy none) (text "select 1 into t") "select 1 into t"

below_deploy_reads_example :
    (sql : String) × (text "select 1; -- one" ≡ text sql)
    × (queried "select 1; -- one" 3 ≡ queried sql 3)
    × AllReads parser sql " DuckDB "
unfolding run_sql require_sql run_required run_text is_blank classify normalize_dialect string_eq
    nat_eq classify_one is_read mode_permits
below_deploy_reads_example =
    below_deploy_reads (tool plan none) (text "select 1; -- one") (queried "select 1; -- one" 3)
      refl first

run_sql-read_example :
    run_sql (tool plan none) (text "select 1; -- one")
    ≡ (ok (selected (1 ∷ 2 ∷ []) 2 true), queried "select 1; -- one" 3 ∷ [])
unfolding is_blank classify normalize_dialect string_eq nat_eq classify_one take length
run_sql-read_example =
    run_sql-read (tool plan none) "select 1; -- one" (1 ∷ 2 ∷ 3 ∷ []) refl refl refl

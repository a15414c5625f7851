-- ===== src/Sql/Tool.antt =====
-- The operation `run` of the `sql` tool of src/carve/core/sql/tool.py. The parser and the runners of
-- the connection are parameters. A run returns its result with the calls that it made of the runners
-- and of the approver, in order.
pub mod Gate
pub mod Rows
use Prim.Native.String.{◌++◌ as ◌<>◌}
use carve.Common.{
  ℕ, ◌+◌, String, Bool, true, false, Option, none, some, List, [], ◌∷◌, ◌++◌, ltb, if◌then◌else◌,
  zero, suc,
}
use carve.Common.Text.{is_blank}
use carve.Common.Slices.{length, take}
use carve.Common.Result.{Fallible, ok, err}
use carve.Permissions.Modes.{PermissionMode, WarehouseRole, role_for}
use carve.Sql.Dialects.{SqlError, unsupported_dialect, parse_error, no_statement, strip}
use carve.Sql.Classify.{StatementKind, read, write, ddl, destructive_ddl, is_read, Parser, classify}

-- `ToolExecutionError` by its message, and the exceptions that the tool lets through.
pub data ToolError : Type 0 where
  no_sql : ToolError
  unclassifiable passed_on : SqlError → ToolError
  write_denied no_write_runner needs_approval : ToolError
  runner_failed : String → ToolError

-- input_.get("sql")
pub data SqlInput : Type 0 where
  text : String → SqlInput
  no_text : SqlInput

unfoldable pub require_sql : SqlInput → Fallible ToolError String
require_sql no_text = err no_sql
require_sql (text sql) = if is_blank sql then err no_sql else ok sql

pub data Effect : Type 0 where
  queried : String → ℕ → Effect
  asked executed : String → Effect

pub data NoRows : Type 0 where
  no_rows : NoRows

-- except SqlClassificationError: the exception of an unknown dialect is another one
abbrev pub refusal : SqlError → ToolError
refusal (unsupported_dialect dialect) = passed_on (unsupported_dialect dialect)
refusal (parse_error message) = unclassifiable (parse_error message)
refusal no_statement = unclassifiable no_statement

-- s[:n]
unfoldable pub first_chars : ℕ → String → String
first_chars zero s = String.[]
first_chars (suc n) String.[] = String.[]
first_chars (suc n) (String.◌∷◌ c s) = String.◌∷◌ c (first_chars n s)

unfoldable pub ddl_prompt : String → String
unfolding strip first_chars
ddl_prompt sql = "Approve destructive DDL?\n" <> first_chars 500 (strip sql)

-- approver and approver(prompt)
unfoldable pub approves : Option (String → Bool) → String → Bool
approves none prompt = false
approves (some approver) prompt = approver prompt

abbrev pub question : Option (String → Bool) → String → List Effect
question none prompt = []
question (some approver) prompt = asked prompt ∷ []

module _ (Row : Type 0) where
  pub data ToolResult : Type 0 where
    selected : List Row → ℕ → Bool → ToolResult
    done : StatementKind → ToolResult

  abbrev pub Ran : Type 0
  Ran = Fallible ToolError ToolResult × List Effect

  -- What the tool is built with: the connection's dialect and runners, the mode and the approver.
  pub record Tool : Type 0 where
    pub parse : Parser
    pub dialect : String
    pub mode : PermissionMode
    pub read_runner : String → ℕ → Fallible String (List Row)
    pub write_runner : Option (String → Fallible String NoRows)
    pub approver : Option (String → Bool)
    pub row_cap : ℕ

module _ {Row : Type 0} where
  -- One row more than the cap is fetched, to tell whether there are more.
  unfoldable pub capped : ℕ → Fallible String (List Row) → Fallible ToolError (ToolResult Row)
  unfolding take length
  capped row_cap (err message) = err (runner_failed message)
  capped row_cap (ok fetched) =
      let rows = take row_cap fetched in
      ok (selected rows (length rows) (ltb row_cap (length fetched)))

  abbrev pub written : StatementKind → Fallible String NoRows → Fallible ToolError (ToolResult Row)
  written kind (err message) = err (runner_failed message)
  written kind (ok result) = ok (done kind)

  -- Only destructive DDL is asked about.
  unfoldable pub write_sql :
      Option (String → Bool) → (String → Fallible String NoRows) → String → StatementKind → Ran Row
  unfolding ddl_prompt approves
  write_sql approver execute sql destructive_ddl =
      let prompt = ddl_prompt sql in
      if approves approver prompt
      then (written destructive_ddl (execute sql), question approver prompt ++ (executed sql ∷ []))
      else (err needs_approval, question approver prompt)
  write_sql approver execute sql kind = (written kind (execute sql), executed sql ∷ [])

  -- The guards before a write: the role of the mode, and a runner.
  unfoldable pub run_write :
      Tool Row
      → Option WarehouseRole
      → Option (String → Fallible String NoRows)
      → String
      → StatementKind
      → Ran Row
  unfolding write_sql
  run_write t none runner sql kind = (err write_denied, [])
  run_write t (some role) none sql kind = (err no_write_runner, [])
  run_write t (some role) (some execute) sql kind = write_sql t.approver execute sql kind

  unfoldable pub run_kind : Tool Row → String → Fallible SqlError StatementKind → Ran Row
  unfolding capped run_write
  run_kind t sql (err e) = (err (refusal e), [])
  run_kind t sql (ok kind) =
      if is_read kind
      then (capped t.row_cap (t.read_runner sql (t.row_cap + 1)), queried sql (t.row_cap + 1) ∷ [])
      else run_write t (role_for t.mode true) t.write_runner sql kind

  -- What follows `_require_sql`.
  unfoldable pub run_text : Tool Row → String → Ran Row
  unfolding run_kind
  run_text t sql = run_kind t sql (classify t.parse sql t.dialect)

  unfoldable pub run_required : Tool Row → Fallible ToolError String → Ran Row
  unfolding run_text
  run_required t (err e) = (err e, [])
  run_required t (ok sql) = run_text t sql

  unfoldable pub run_sql : Tool Row → SqlInput → Ran Row
  unfolding require_sql run_required
  run_sql t input = run_required t (require_sql input)

-- ===== src/Sql/Classify.antt =====
-- src/carve/core/sql/classify.py: a statement's class, from the kind of the node that `sqlglot`
-- parses it to. The parser is a parameter: it is called with the text and the dialect's name.
pub mod Greatest
pub mod ReadOnly
use carve.Common.{
  ℕ, String, Bool, true, false, Option, none, some, List, [], ◌∷◌, leb, if◌then◌else◌,
}
use carve.Common.Result.{Fallible, ok, err, ◌>>=◌}
use carve.Sql.Dialects.{SqlError, parse_error, no_statement, normalize_dialect}

-- An `IntEnum`, from the least to the most privileged.
pub data StatementKind : Type 0 where
  read write ddl destructive_ddl : StatementKind

abbrev pub privilege : StatementKind → ℕ
privilege read = 0
privilege write = 1
privilege ddl = 2
privilege destructive_ddl = 3

unfoldable pub is_read : StatementKind → Bool
is_read read = true
is_read _ = false

-- The classes of `sqlglot.exp` that the module names, and any other one.
pub data Node : Type 0 where
  select union subquery show describe pragma : Node
  insert update delete merge : Node
  drop truncate_table create alter semicolon : Node
  other_node : String → Node

-- A parsed statement: its root, and whether `statement.find(exp.Into)` finds a node.
pub record Statement : Type 0 where
  pub node : Node
  pub has_into : Bool

abbrev pub is_destructive_type : Node → Bool
is_destructive_type drop = true
is_destructive_type truncate_table = true
is_destructive_type _ = false

abbrev pub is_write_type : Node → Bool
is_write_type insert = true
is_write_type update = true
is_write_type delete = true
is_write_type merge = true
is_write_type _ = false

abbrev pub is_ddl_type : Node → Bool
is_ddl_type create = true
is_ddl_type alter = true
is_ddl_type _ = false

abbrev pub is_read_type : Node → Bool
is_read_type select = true
is_read_type union = true
is_read_type subquery = true
is_read_type show = true
is_read_type describe = true
is_read_type pragma = true
is_read_type _ = false

unfoldable pub classify_one : Statement → StatementKind
classify_one s =
    if is_destructive_type s.node
    then destructive_ddl
    else if s.has_into
    then write
    else if is_write_type s.node
    then write
    else if is_ddl_type s.node
    then ddl
    else if is_read_type s.node
    then read
    else write

abbrev pub is_semicolon : Node → Bool
is_semicolon semicolon = true
is_semicolon _ = false

-- The statements of a parse: no `None` and no trailing comment.
unfoldable pub statements_of : List (Option Statement) → List Statement
statements_of [] = []
statements_of (none ∷ parsed) = statements_of parsed
statements_of (some s ∷ parsed) =
    let rest = statements_of parsed in if is_semicolon s.node then rest else s ∷ rest

abbrev pub greater : StatementKind → StatementKind → StatementKind
greater a b = if leb (privilege b) (privilege a) then a else b

-- max over a generator that is not empty
unfoldable pub greatest : StatementKind → List Statement → StatementKind
unfolding classify_one
greatest best [] = best
greatest best (s ∷ rest) = greatest (greater best (classify_one s)) rest

unfoldable pub greatest_of : List Statement → Fallible SqlError StatementKind
unfolding classify_one greatest
greatest_of [] = err no_statement
greatest_of (s ∷ rest) = ok (greatest (classify_one s) rest)

-- What `sqlglot.parse` gives for a text and a dialect, or the message of its exception.
abbrev pub Parser : Type 0
Parser = String → String → Fallible String (List (Option Statement))

-- except SqlglotError
abbrev pub or_parse_error :
    Fallible String (List (Option Statement)) → Fallible SqlError (List (Option Statement))
or_parse_error (err message) = err (parse_error message)
or_parse_error (ok parsed) = ok parsed

abbrev pub read_or_not : Fallible SqlError StatementKind → Bool
read_or_not (err e) = false
read_or_not (ok kind) = is_read kind

module _ (parse : Parser) where
  unfoldable pub classify : String → String → Fallible SqlError StatementKind
  unfolding statements_of greatest_of
  classify sql dialect = normalize_dialect dialect >>= λ name.
      or_parse_error (parse sql name) >>= λ parsed. greatest_of (statements_of parsed)

  -- Every exception of `classify` is caught.
  unfoldable pub is_read_only : String → String → Bool
  unfolding classify
  is_read_only sql dialect = read_or_not (classify sql dialect)

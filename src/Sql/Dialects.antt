-- ===== src/Sql/Dialects.antt =====
-- src/carve/core/sql/dialects.py: the canonical name of a dialect, and the errors of the SQL
-- layer.
use Prim.Native.Char.{Char, code}
use carve.Common.{
  String, List, [], ◌∷◌, ◌++◌, ◌==◌, contains, string_eq, nat_eq, if◌then◌else◌, ◌&&◌, Option, none,
  some,
}
use carve.Common.Text.{is_space}
use carve.Common.Result.{Fallible, ok, err}
use carve.Common.Dict.{Dict, lookup}

-- s.lstrip(), s.rstrip() and s.strip()
unfoldable pub lstrip : String → String
unfolding is_space
lstrip String.[] = String.[]
lstrip (String.◌∷◌ c s) = let rest = lstrip s in if is_space (code c) then rest else String.◌∷◌ c s

unfoldable pub rstrip : String → String
unfolding is_space
rstrip String.[] = String.[]
rstrip (String.◌∷◌ c s) =
    let rest = rstrip s in if is_space (code c) && rest == "" then String.[] else String.◌∷◌ c rest

unfoldable pub strip : String → String
unfolding lstrip rstrip
strip s = rstrip (lstrip s)

-- The character at the place that `c` has in the first text, or `c` itself.
unfoldable pub translate : String → String → Char → Char
translate (String.◌∷◌ a froms) (String.◌∷◌ b tos) c =
    let rest = translate froms tos c in if code a == code c then b else rest
translate _ _ c = c

-- s.lower(), for the characters whose lower case is an ASCII letter: A to Z and the Kelvin sign. A
-- text with any other capital is no dialect's name before or after.
unfoldable pub lower : String → String
unfolding translate
lower String.[] = String.[]
lower (String.◌∷◌ c s) =
    String.◌∷◌ (translate "ABCDEFGHIJKLMNOPQRSTUVWXYZK" "abcdefghijklmnopqrstuvwxyzk" c) (lower s)

abbrev pub first_class_dialects : List String
first_class_dialects = "snowflake" ∷ "duckdb" ∷ []

abbrev pub author_only_dialects : List String
author_only_dialects = "postgres" ∷ "bigquery" ∷ "databricks" ∷ "tsql" ∷ []

abbrev pub supported_dialects : List String
supported_dialects = first_class_dialects ++ author_only_dialects

abbrev pub aliases : Dict String
aliases =
    ("postgresql", "postgres")
    ∷ ("pg", "postgres")
    ∷ ("sqlserver", "tsql")
    ∷ ("mssql", "tsql")
    ∷ ("bq", "bigquery")
    ∷ []

-- d.get(k, default)
abbrev pub get_or : Option String → String → String
get_or none default = default
get_or (some v) default = v

-- The exceptions of the SQL layer: the parser's own one carries its message.
pub data SqlError : Type 0 where
  unsupported_dialect parse_error : String → SqlError
  no_statement : SqlError

unfoldable pub normalize_dialect : String → Fallible SqlError String
unfolding strip lower lookup
normalize_dialect dialect =
    let name = get_or (lookup (lower (strip dialect)) aliases) (lower (strip dialect)) in
    if contains supported_dialects name then ok name else err (unsupported_dialect dialect)

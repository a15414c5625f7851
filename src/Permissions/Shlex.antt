-- ===== src/Permissions/Shlex.antt =====
-- `shlex.split` of Python's standard library in POSIX mode, as the bash gate calls it: whitespace
-- separates words, both quotes group, and a backslash escapes.
use Prim.Native.Char.{code}
use Prim.Native.String.{◌++◌ as ◌<>◌}
use carve.Common.{
  ℕ, String, Bool, Option, none, some, List, [], ◌∷◌, ◌≡◌, refl, ◌||◌, ◌&&◌, ◌==◌, nat_eq,
  if◌then◌else◌,
}

-- Where the reader stands; `escape` remembers the quote that it returns to, if any.
pub data LexState : Type 0 where
  gap word : LexState
  quote : ℕ → LexState
  escape : Option ℕ → LexState

is_separator : ℕ → Bool
is_separator c = c == 32 || c == 9 || c == 13 || c == 10

is_quote : ℕ → Bool
is_quote c = c == b'"' || c == 39

abbrev back : Option ℕ → LexState
back none = word
back (some q) = quote q

-- What an escaped character adds: within quotes the backslash is kept, but before the quote itself
-- and before another backslash.
escaped : Option ℕ → ℕ → String → String
escaped none c text = text
escaped (some q) c text = if c == q || c == 92 then text else "\\" <> text

-- The words of the input, behind the part `token` of the word that is being read. A word ends only
-- in state `word`, where it has a character or was quoted; so it is never dropped.
lex : LexState → String → String → Option (List String)
lex gap token String.[] = some []
lex word token String.[] = some (token ∷ [])
lex (quote q) token String.[] = none
lex (escape from) token String.[] = none
lex gap token (String.◌∷◌ c s) =
    let n = code c in
    let skip = lex gap "" s in
    let esc = lex (escape none) "" s in
    let quo = lex (quote n) "" s in
    let chr = lex word (String.◌∷◌ c String.[]) s in
    if is_separator n then skip else if n == 92 then esc else if is_quote n then quo else chr
lex word token (String.◌∷◌ c s) =
    let n = code c in
    let stop = lex gap "" s in
    let esc = lex (escape none) token s in
    let quo = lex (quote n) token s in
    let chr = lex word (token <> String.◌∷◌ c String.[]) s in
    if is_separator n
    then elim stop [ none ↦ none | some words ↦ some (token ∷ words) ]
    else if is_quote n
    then quo
    else if n == 92
    then esc
    else chr
lex (quote q) token (String.◌∷◌ c s) =
    let n = code c in
    let close = lex word token s in
    let esc = lex (escape (some q)) token s in
    let chr = lex (quote q) (token <> String.◌∷◌ c String.[]) s in
    if n == q then close else if n == 92 && q == b'"' then esc else chr
lex (escape from) token (String.◌∷◌ c s) =
    lex (back from) (token <> escaped from (code c) (String.◌∷◌ c String.[])) s

-- `none` is the `ValueError` of an open quotation or a trailing backslash.
unfoldable pub split : String → Option (List String)
unfolding lex escaped is_separator is_quote
split s = lex gap "" s

split_quoted :
    split "git log  --format='%h %s' \"a\\\"b\""
    ≡ some ("git" ∷ "log" ∷ "--format=%h %s" ∷ "a\"b" ∷ [])
unfolding split nat_eq
split_quoted = refl

split_open : split "echo 'a" ≡ none
unfolding split nat_eq
split_open = refl

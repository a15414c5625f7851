-- ===== src/Common/Text.antt =====
-- Python's `str` methods that the program uses, on texts as sequences of characters.
use Prim.Native.Char.{code}
use text.Mathlib.Text
use carve.Common.{
  ℕ, ◌+◌, String, Bool, true, ◌||◌, ◌&&◌, leb, ◌==◌, string_eq, nat_eq, if◌then◌else◌,
}

-- s.startswith(t), as its own name
abbrev pub starts_with : String → String → Bool
starts_with = Text.starts_with

-- s.endswith(t)
unfoldable pub ends_with : String → String → Bool
ends_with String.[] t = t == ""
ends_with (String.◌∷◌ c s) t = t == String.◌∷◌ c s || ends_with s t

-- s.count(c), for one character
unfoldable pub count_of : ℕ → String → ℕ
count_of c String.[] = 0
count_of c (String.◌∷◌ d s) = (if code d == c then 1 else 0) + count_of c s

-- s[:-1]
unfoldable pub drop_last : String → String
drop_last String.[] = String.[]
drop_last (String.◌∷◌ c String.[]) = String.[]
drop_last (String.◌∷◌ c (String.◌∷◌ d s)) = String.◌∷◌ c (drop_last (String.◌∷◌ d s))

-- t in s
unfoldable pub occurs_in : String → String → Bool
occurs_in t String.[] = t == ""
occurs_in t (String.◌∷◌ c s) = starts_with (String.◌∷◌ c s) t || occurs_in t s

-- c.isspace()
unfoldable pub is_space : ℕ → Bool
is_space c =
    (leb 9 c && leb c 13)
    || (leb 28 c && leb c 32)
    || c == 133
    || c == 160
    || c == 5760
    || (leb 8192 c && leb c 8202)
    || c == 8232
    || c == 8233
    || c == 8239
    || c == 8287
    || c == 12288

-- not s.strip()
unfoldable pub is_blank : String → Bool
unfolding is_space
is_blank String.[] = true
is_blank (String.◌∷◌ c s) = is_space (code c) && is_blank s

-- s.rsplit("/", 1)[-1]: what stands behind the last slash
base_name_from : String → String → String
base_name_from String.[] found = found
base_name_from (String.◌∷◌ c s) found = base_name_from s (if code c == b'/' then s else found)

unfoldable pub base_name : String → String
unfolding base_name_from
base_name s = base_name_from s s

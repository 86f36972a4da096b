-- ===== src/Prelude/Texts.antt =====
-- Python's tests and walks on texts, character by character.
use Prim.Native.Char.{Char, code}
use Prim.Native.String.{String}
use mathlib.Core.Bool.{Bool, true, false, not, ◌&&◌, ◌||◌}
use mathlib.Core.List.{List, [], ◌∷◌}
use mathlib.Core.Option.{Option, none, some}
use text.Mathlib.Text.{starts_with}
use virtual_private_network.Prelude.Tests.{leb, ◌==◌, if◌then◌else◌}

-- `part in text`
unfoldable pub contains_text : String → String → Bool
contains_text part String.[] = starts_with "" part
contains_text part (String.◌∷◌ c s) = starts_with (String.◌∷◌ c s) part || contains_text part s

-- `str.isspace` of a character, which is also `\s`.
abbrev pub is_space : Char → Bool
is_space c =
    let n = code c in
    (leb 9 n && leb n 13)
    || (leb 28 n && leb n 32)
    || n == 133
    || n == 160
    || n == 5760
    || (leb 8192 n && leb n 8202)
    || n == 8232
    || n == 8233
    || n == 8239
    || n == 8287
    || n == 12288

-- The characters at which `str.splitlines` breaks.
abbrev pub is_break : Char → Bool
is_break c =
    let n = code c in
    (leb 10 n && leb n 13) || (leb 28 n && leb n 30) || n == 133 || n == 8232 || n == 8233

abbrev pub is_empty : String → Bool
is_empty String.[] = true
is_empty (String.◌∷◌ _ _) = false

abbrev pub starts_word : String → Bool
starts_word String.[] = false
starts_word (String.◌∷◌ c _) = not (is_space c)

abbrev cons_first : Char → List String → List String
cons_first c [] = String.◌∷◌ c String.[] ∷ []
cons_first c (l ∷ ls) = String.◌∷◌ c l ∷ ls

-- The flag tells that the last character was a carriage return: "\r\n" is one break.
lines_from : Bool → String → List String
lines_from cr String.[] = []
lines_from cr (String.◌∷◌ c s) =
    let rest = lines_from (code c == 13) s in
    if cr && code c == 10 then rest else if is_break c then "" ∷ rest else cons_first c rest

unfoldable pub splitlines : String → List String
unfolding lines_from
splitlines = lines_from false

-- `text.split()`
unfoldable pub split_words : String → List String
split_words String.[] = []
split_words (String.◌∷◌ c s) =
    let rest = split_words s in
    if is_space c
    then rest
    else if starts_word s
    then cons_first c rest
    else String.◌∷◌ c String.[] ∷ rest

-- `text.strip()`
lstrip : String → String
lstrip String.[] = String.[]
lstrip (String.◌∷◌ c s) = if is_space c then lstrip s else String.◌∷◌ c s

unfoldable pub rstrip : String → String
rstrip String.[] = String.[]
rstrip (String.◌∷◌ c s) =
    let rest = rstrip s in if is_space c && is_empty rest then String.[] else String.◌∷◌ c rest

unfoldable pub strip : String → String
unfolding lstrip rstrip
strip s = rstrip (lstrip s)

-- What follows the prefix, if the text starts with it.
unfoldable pub after_prefix : String → String → Option String
after_prefix String.[] s = some s
after_prefix (String.◌∷◌ p ps) String.[] = none
after_prefix (String.◌∷◌ p ps) (String.◌∷◌ c s) =
    let rest = after_prefix ps s in if code p == code c then rest else none

-- The longest run of `\S` at the front, and the rest.
unfoldable pub span_word : String → String × String
span_word String.[] = (String.[], String.[])
span_word (String.◌∷◌ c s) =
    let (word, rest) = span_word s in
    if is_space c then (String.[], String.◌∷◌ c s) else (String.◌∷◌ c word, rest)

-- ===== src/Prelude/Lines.antt =====
-- The lines of a text, its whitespace and its ASCII letters, as a `str` has them.
use nanoeval.Prelude.Tests.{if◌then◌else◌, leb, ◌==◌}
use nanoeval.Prelude.Order.{codes}
use Prim.Native.Nat.{ℕ, ◌+◌}
use Prim.Native.Char.{Char, code}
use Prim.Native.String.{String, ◌++◌}
use mathlib.Core.Bool.{Bool, true, false, ◌&&◌, ◌||◌}
use mathlib.Core.List.{List, [], ◌∷◌, map}
use text.Mathlib.Text.{◌==◌ as str_eq}

-- `char::is_whitespace`: the characters of Unicode's White_Space
abbrev pub is_whitespace : ℕ → Bool
is_whitespace n =
    (leb 9 n && leb n 13)
    || n == 32
    || n == 133
    || n == 160
    || n == 5760
    || (leb 8192 n && leb n 8202)
    || n == 8232
    || n == 8233
    || n == 8239
    || n == 8287
    || n == 12288

abbrev pub is_empty_text : String → Bool
is_empty_text String.[] = true
is_empty_text (String.◌∷◌ c s) = false

abbrev pub trim_start : String → String
trim_start String.[] = ""
trim_start (String.◌∷◌ c s) =
    let rest = trim_start s in if is_whitespace (code c) then rest else String.◌∷◌ c s

abbrev pub trim_end : String → String
trim_end String.[] = ""
trim_end (String.◌∷◌ c s) =
    let rest = trim_end s in
    if is_empty_text rest && is_whitespace (code c) then "" else String.◌∷◌ c rest

-- `trim`
unfoldable pub trim : String → String
trim s = trim_start (trim_end s)

-- `trim().is_empty()`
unfoldable pub is_blank : String → Bool
unfolding trim
is_blank s = is_empty_text (trim s)

abbrev pub starts_with_newline : String → Bool
starts_with_newline String.[] = false
starts_with_newline (String.◌∷◌ c s) = code c == 10

-- the first line with one more character in front
abbrev pub cons_line : Char → List String → List String
cons_line c [] = String.◌∷◌ c "" ∷ []
cons_line c (line ∷ later) = String.◌∷◌ c line ∷ later

-- `lines`: what a line feed, or a carriage return and a line feed, ends
unfoldable pub lines : String → List String
lines String.[] = []
lines (String.◌∷◌ c s) =
    let rest = lines s in
    if code c == 10
    then "" ∷ rest
    else if code c == 13 && starts_with_newline s
    then rest
    else cons_line c rest

-- `join("\n")`
unfoldable pub join_lines : List String → String
join_lines [] = ""
join_lines (line ∷ []) = line
join_lines (line ∷ next ∷ later) = (line ++ "\n") ++ join_lines (next ∷ later)

-- `ends_with`
abbrev pub ends_with : String → String → Bool
ends_with String.[] suffix = str_eq "" suffix
ends_with (String.◌∷◌ c s) suffix = str_eq (String.◌∷◌ c s) suffix || ends_with s suffix

-- `to_ascii_lowercase` of a character
abbrev pub lower_code : ℕ → ℕ
lower_code n = if leb 65 n && leb n 90 then n + 32 else n

abbrev pub is_code_prefix : List ℕ → List ℕ → Bool
is_code_prefix [] text = true
is_code_prefix (n ∷ ns) [] = false
is_code_prefix (n ∷ ns) (m ∷ ms) = n == m && is_code_prefix ns ms

abbrev pub is_code_infix : List ℕ → List ℕ → Bool
is_code_infix needle [] = is_code_prefix needle []
is_code_infix needle (n ∷ ns) = is_code_prefix needle (n ∷ ns) || is_code_infix needle ns

-- `to_ascii_lowercase().contains(needle)`
unfoldable pub contains_lowercase : String → String → Bool
contains_lowercase text needle = is_code_infix (codes needle) (map lower_code (codes text))

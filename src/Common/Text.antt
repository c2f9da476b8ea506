-- ===== src/Common/Text.antt =====
-- Text as the source uses it: the methods of `char` and `str` of the standard library.
use Prim.Native.Char.{Char, code}
use Prim.Native.Nat.{ℕ, zero, suc, ◌-◌}
use Prim.Native.String.{String, [], ◌∷◌, ◌++◌, count}
use mathlib.Core.Bool.{Bool, true, false, ◌&&◌, ◌||◌}
use mathlib.Core.Option.{Option, none, some}
use mathlib.Core.List.{List}
use xrayctl.Common.Tests.{leb, eqb, if◌then◌else◌}

abbrev pub in_range : ℕ → ℕ → ℕ → Bool
in_range lo hi c = leb lo c && leb c hi

-- `char::is_ascii_alphanumeric`, on the code point.
unfoldable pub is_ascii_alphanumeric : ℕ → Bool
is_ascii_alphanumeric c = in_range b'0' b'9' c || in_range b'a' b'z' c || in_range b'A' b'Z' c

-- `char::is_whitespace`: the code points with the Unicode property White_Space.
unfoldable pub is_whitespace : ℕ → Bool
is_whitespace c =
    in_range 0x9 0xd c
    || eqb c 0x20
    || eqb c 0x85
    || eqb c 0xa0
    || eqb c 0x1680
    || in_range 0x2000 0x200a c
    || in_range 0x2028 0x2029 c
    || eqb c 0x202f
    || eqb c 0x205f
    || eqb c 0x3000

-- `chars().all(p)` on the code points.
abbrev pub all_chars : (ℕ → Bool) → String → Bool
all_chars p [] = true
all_chars p (c ∷ s) = p (code c) && all_chars p s

-- `trim().is_empty()`.
unfoldable pub is_blank : String → Bool
unfolding is_whitespace
is_blank s = all_chars is_whitespace s

abbrev pub is_empty_text : String → Bool
is_empty_text [] = true
is_empty_text (c ∷ s) = false

-- `trim`.
unfoldable pub trim_start : String → String
unfolding is_whitespace
trim_start [] = []
trim_start (c ∷ s) = if is_whitespace (code c) then trim_start s else c ∷ s

unfoldable pub trim_end : String → String
unfolding is_whitespace
trim_end [] = []
trim_end (c ∷ s) =
    let rest = trim_end s in if is_empty_text rest && is_whitespace (code c) then [] else c ∷ rest

unfoldable pub trim : String → String
unfolding trim_start trim_end
trim s = trim_end (trim_start s)

-- `s.split(sep)`: the pieces between the separators, one more than there are separators.
split_from : ℕ → String → String → List String
split_from sep cur [] = List.◌∷◌ cur List.[]
split_from sep cur (c ∷ s) =
    let closed = split_from sep [] s in
    let longer = split_from sep (cur ++ (c ∷ [])) s in
    if eqb (code c) sep then List.◌∷◌ cur closed else longer

unfoldable pub split : ℕ → String → List String
unfolding split_from
split sep s = split_from sep [] s

-- `[String]::join`.
unfoldable pub join : String → List String → String
join sep List.[] = ""
join sep (List.◌∷◌ x List.[]) = x
join sep (List.◌∷◌ x (List.◌∷◌ y r)) = x ++ (sep ++ join sep (List.◌∷◌ y r))

-- `s.split_once(sep)`.
unfoldable pub split_once : ℕ → String → Option (String × String)
split_once sep [] = none
split_once sep (c ∷ s) =
    let rest = split_once sep s in
    if eqb (code c) sep
    then some ([], s)
    else elim rest [ none ↦ none | some (a, b) ↦ some (c ∷ a, b) ]

-- `s.rsplit_once(sep)`.
unfoldable pub rsplit_once : ℕ → String → Option (String × String)
rsplit_once sep [] = none
rsplit_once sep (c ∷ s) = elim (rsplit_once sep s) [
  | none ↦ if eqb (code c) sep then some ([], s) else none
  | some (a, b) ↦ some (c ∷ a, b)
]

-- `s.starts_with(prefix)`.
unfoldable pub starts_with_text : String → String → Bool
starts_with_text [] s = true
starts_with_text (c ∷ p) [] = false
starts_with_text (c ∷ p) (d ∷ s) = eqb (code c) (code d) && starts_with_text p s

-- `s.strip_prefix(prefix)`.
unfoldable pub strip_prefix : String → String → Option String
strip_prefix [] s = some s
strip_prefix (c ∷ p) [] = none
strip_prefix (c ∷ p) (d ∷ s) = if eqb (code c) (code d) then strip_prefix p s else none

-- `s.contains(part)`.
unfoldable pub contains_text : String → String → Bool
unfolding starts_with_text
contains_text part [] = is_empty_text part
contains_text part (c ∷ s) = starts_with_text part (c ∷ s) || contains_text part s

-- `s.replace(from, to)`, for a `from` that is not empty: what is left of an occurrence is skipped.
replace_from : ℕ → String → String → String → String
replace_from skip from to [] = []
replace_from (suc skip) from to (c ∷ s) = replace_from skip from to s
replace_from zero from to (c ∷ s) =
    let after = replace_from (count from - 1) from to s in
    let rest = replace_from zero from to s in
    if starts_with_text from (c ∷ s) then to ++ after else c ∷ rest

unfoldable pub replace_text : String → String → String → String
unfolding replace_from starts_with_text
replace_text from to s = replace_from 0 from to s

-- `s.replacen(from, to, 1)`, for a `from` that is not empty.
unfoldable pub replace_first : String → String → String → String
unfolding strip_prefix
replace_first from to [] = []
replace_first from to (c ∷ s) =
    let rest = replace_first from to s in
    elim (strip_prefix from (c ∷ s)) [ none ↦ c ∷ rest | some after ↦ to ++ after ]

-- `s.to_ascii_lowercase()`: the letter at the place of the capital.
letter_at : Char → String → String → Char
letter_at c (u ∷ upper) (l ∷ lower) = if eqb (code c) (code u) then l else letter_at c upper lower
letter_at c upper lower = c

unfoldable pub to_ascii_lowercase : String → String
unfolding letter_at
to_ascii_lowercase [] = []
to_ascii_lowercase (c ∷ s) =
    letter_at c "ABCDEFGHIJKLMNOPQRSTUVWXYZ" "abcdefghijklmnopqrstuvwxyz" ∷ to_ascii_lowercase s

-- `s.lines()`: what ends in a line feed, without it and a carriage return before it, and what is left.
without_return : String → String
without_return [] = []
without_return (c ∷ []) = if eqb (code c) 0xd then [] else c ∷ []
without_return (c ∷ (d ∷ s)) = c ∷ without_return (d ∷ s)

closed_lines : List String → List String
unfolding without_return
closed_lines List.[] = List.[]
closed_lines (List.◌∷◌ last List.[]) = if is_empty_text last then List.[] else List.◌∷◌ last List.[]
closed_lines (List.◌∷◌ line (List.◌∷◌ next more)) =
    List.◌∷◌ (without_return line) (closed_lines (List.◌∷◌ next more))

unfoldable pub lines : String → List String
unfolding split closed_lines
lines s = closed_lines (split 0xa s)

-- `&s[..n]`, for a text that is long enough.
unfoldable pub take_text : ℕ → String → String
take_text zero s = []
take_text (suc n) [] = []
take_text (suc n) (c ∷ s) = c ∷ take_text n s

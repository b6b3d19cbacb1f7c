-- ===== src/Text.antt =====
-- The operations of Rust's `str` that the program uses, over lists of code points.
pub mod Cut
pub mod Decimal
pub mod Words
pub mod Lines
use Prim.Native.Char.{code}
use Prim.Native.String.{String}
use tinyboot.Prelude.{
  ℕ, suc, zero, Bool, true, false, ◌&&◌, ◌||◌, not, List, [], ◌∷◌, ◌++◌, reverse, map, Option, none,
  some, ◌==◌, within, if◌then◌else◌, length, ◌≡◌, ◌≢◌, All,
}
use mathlib.Core.Option

abbrev pub Text : Type 0
Text = List ℕ

-- The code points of a literal.
abbrev pub codes : String → Text
codes String.[] = []
codes (String.◌∷◌ c s) = code c ∷ codes s

-- `==` on strings.
unfoldable pub equal : Text → Text → Bool
equal [] [] = true
equal (x ∷ xs) (y ∷ ys) = x == y && equal xs ys
equal _ _ = false

-- `char::is_whitespace`: the code points with the property White_Space.
unfoldable pub is_whitespace : ℕ → Bool
is_whitespace c =
    within 0x9 0xd c
    || c == 0x20
    || c == 0x85
    || c == 0xa0
    || c == 0x1680
    || within 0x2000 0x200a c
    || within 0x2028 0x2029 c
    || c == 0x202f
    || c == 0x205f
    || c == 0x3000

pub is_ascii_whitespace : ℕ → Bool
is_ascii_whitespace c = c == 0x9 || c == 0xa || c == 0xc || c == 0xd || c == 0x20

unfoldable pub strip_prefix : Text → Text → Option Text
strip_prefix [] s = some s
strip_prefix (p ∷ ps) [] = none
strip_prefix (p ∷ ps) (c ∷ s) = if p == c then strip_prefix ps s else none

unfoldable pub strip_suffix : Text → Text → Option Text
unfolding strip_prefix
strip_suffix p s = Option.map reverse (strip_prefix (reverse p) (reverse s))

unfoldable pub starts_with : Text → Text → Bool
unfolding strip_prefix
starts_with p s = elim (strip_prefix p s) [ none ↦ false | some _ ↦ true ]

-- `str::contains`
unfoldable pub contains : Text → Text → Bool
unfolding starts_with
contains p [] = starts_with p []
contains p (c ∷ s) = starts_with p (c ∷ s) || contains p s

-- `split_once` at the first character that the pattern accepts.
unfoldable pub split_once : (ℕ → Bool) → Text → Option (Text × Text)
split_once p [] = none
split_once p (c ∷ s) =
    let rest = Option.map (λ (parts : Text × Text). (c ∷ parts.0, parts.1)) (split_once p s) in
    if p c then some ([], s) else rest

unfoldable pub trim_start_by : (ℕ → Bool) → Text → Text
trim_start_by p [] = []
trim_start_by p (c ∷ s) = if p c then trim_start_by p s else c ∷ s

unfoldable pub trim_end_by : (ℕ → Bool) → Text → Text
unfolding trim_start_by
trim_end_by p s = reverse (trim_start_by p (reverse s))

unfoldable pub trim : Text → Text
unfolding trim_end_by is_whitespace
trim s = trim_end_by is_whitespace (trim_start_by is_whitespace s)

-- A word that is complete, unless it is empty.
abbrev pub put_word : Text → List Text → List Text
put_word [] ws = ws
put_word (c ∷ s) ws = (c ∷ s) ∷ ws

-- `split_whitespace` and `split_ascii_whitespace`: the maximal runs with no separator. The first
-- argument is the part of the current word already read.
pub words_onto : (ℕ → Bool) → Text → Text → List Text
words_onto p cur [] = put_word cur []
words_onto p cur (c ∷ s) = elim (p c) [
  | true ↦ put_word cur (words_onto p [] s)
  | false ↦ words_onto p (cur ++ c ∷ []) s
]

unfoldable pub split_whitespace : Text → List Text
unfolding words_onto is_whitespace
split_whitespace = words_onto is_whitespace []

unfoldable pub split_ascii_whitespace : Text → List Text
unfolding words_onto is_ascii_whitespace
split_ascii_whitespace = words_onto is_ascii_whitespace []

-- A line is ended by `\n`, and a `\r` before that is dropped with it.
abbrev pub drop_return : Text → Text
drop_return s = elim (reverse s) [ [] ↦ [] | c ∷ r ↦ if c == b'\r' then reverse r else s ]

unfoldable pub lines_onto : Text → Text → List Text
lines_onto cur [] = put_word cur []
lines_onto cur (c ∷ s) = elim (c == b'\n') [
  | true ↦ drop_return cur ∷ lines_onto [] s
  | false ↦ lines_onto (cur ++ c ∷ []) s
]

-- `str::lines`
unfoldable pub lines : Text → List Text
unfolding lines_onto
lines = lines_onto []

-- `split` at a character: one part more than there are separators.
unfoldable pub split_onto : ℕ → Text → Text → List Text
split_onto k cur [] = cur ∷ []
split_onto k cur (c ∷ s) = elim (c == k) [
  | true ↦ cur ∷ split_onto k [] s
  | false ↦ split_onto k (cur ++ c ∷ []) s
]

unfoldable pub split : ℕ → Text → List Text
unfolding split_onto
split k = split_onto k []

-- `[String]::join`
unfoldable pub join : Text → List Text → Text
join sep [] = []
join sep (w ∷ []) = w
join sep (w ∷ v ∷ ws) = w ++ (sep ++ join sep (v ∷ ws))

-- `trim_start_matches` with a text: the prefix is taken off as often as it is there. Each round
-- takes a character at least (the program's patterns are not empty), so the length is fuel enough.
unfoldable pub trim_matches_for : ℕ → Text → Text → Text
unfolding strip_prefix
trim_matches_for zero p s = s
trim_matches_for (suc n) p s = elim (strip_prefix p s) [
  | none ↦ s
  | some r ↦ trim_matches_for n p r
]

unfoldable pub trim_start_matches : Text → Text → Text
unfolding trim_matches_for
trim_start_matches p s = trim_matches_for (length s) p s

unfoldable pub trim_end_matches : Text → Text → Text
unfolding trim_start_matches
trim_end_matches p s = reverse (trim_start_matches (reverse p) (reverse s))

-- No character of the text is accepted.
abbrev pub Lacks : (ℕ → Bool) → Text → Type 0
Lacks p = All (λ c. p c ≡ false)

-- ===== src/Dev/UeventFile.antt =====
-- What a uevent file says.
use tinyboot.Prelude.{
  List, [], ◌∷◌, Option, none, some, if◌then◌else◌, last_said, ◌≡◌, refl, ◌∙◌, ap, Bool-cases,
  Option-cases, inl, inr,
}
use tinyboot.Text.{Text, equal, lines, split_once}
use tinyboot.Dev.{TextMap, get, is_equals, parse_uevent_lines, parse_uevent}

-- The value that a line gives a key.
abbrev pub value_of : Text → Text → Option Text
value_of k l = elim (split_once is_equals l) [
  | none ↦ none
  | some (key, val) ↦ if equal key k then some val else none
]

get-parse_uevent_lines :
    (k : Text) (ls : List Text) (m : TextMap)
    → get k (parse_uevent_lines ls m) ≡ last_said (value_of k) ls (get k m)
unfolding parse_uevent_lines get
get-parse_uevent_lines k [] m = refl
get-parse_uevent_lines k (l ∷ ls) m = elim (Option-cases (split_once is_equals l)) [
  | inl plain ↦ rw (plain, parse_uevent_lines) (get-parse_uevent_lines k ls m)
  | inr ((key, val), cut) ↦ elim (Bool-cases (equal key k)) [
    | inl hit ↦
        let now : get k ((key, val) ∷ m) ≡ some val = rw (hit, get) in
        rw (cut, hit)
          (get-parse_uevent_lines k ls ((key, val) ∷ m) ∙ ap (last_said (value_of k) ls) now)
    | inr miss ↦
        let now : get k ((key, val) ∷ m) ≡ get k m = rw (miss, get) in
        rw (cut, miss)
          (get-parse_uevent_lines k ls ((key, val) ∷ m) ∙ ap (last_said (value_of k) ls) now)
  ]
]

-- A key has the value of the last line that gives it one.
pub get-parse_uevent :
    (k contents : Text)
    → get k (parse_uevent contents) ≡ last_said (value_of k) (lines contents) none
unfolding parse_uevent get
get-parse_uevent k contents = get-parse_uevent_lines k (lines contents) []

-- ===== src/Dev/Pairs.antt =====
-- The pairs of a message of the kernel, and the values that are found for their keys.
use tinyboot.Prelude.{
  Bool, ℕ, ◌==◌, ==_iff, true, false, List, [], ◌∷◌, ◌++◌, append_assoc, append-nil, map, Option,
  none, some, if◌then◌else◌, last_said, ◌≡◌, refl, arith, ◌∙◌, ap, All, Bool-cases, inl, inr,
}
use tinyboot.Text.{Text, codes, equal, split_onto, join, Lacks}
use tinyboot.Text.Cut.{split_once-append, split_once-Lacks}
use tinyboot.Dev.{
  TextMap, get, is_equals, EventType, add, remove, change, move, online, offline, bind, unbind,
  collect_pairs,
}

-- A text between two separators is one part.
pub split_onto-join :
    (k : ℕ) (w : Text) (ws : List Text) (cur : Text)
    → Lacks (λ c. c == k) w
    → All (Lacks (λ c. c == k)) ws
    → split_onto k cur (join (k ∷ []) (w ∷ ws)) ≡ (cur ++ w) ∷ ws
unfolding split_onto join
split_onto-join k [] [] cur h hs = rw append-nil
split_onto-join k [] (v ∷ ws) cur h hs =
    ground (arith, (==_iff k k).1 refl, split_onto-join k v ws [] hs.0 hs.1, append-nil cur)
split_onto-join k (c ∷ w) [] cur h hs =
    ground (arith, h.0, split_onto-join k w [] (cur ++ c ∷ []) h.1 tt, append_assoc cur (c ∷ []) w)
split_onto-join k (c ∷ w) (v ∷ ws) cur h hs =
    ground
      (arith, h.0, split_onto-join k w (v ∷ ws) (cur ++ c ∷ []) h.1 hs, append_assoc cur (c ∷ []) w)

abbrev pub Pair : Type 0
Pair = Text × Text

abbrev pub render : Pair → Text
render p = p.0 ++ b'=' ∷ p.1

abbrev pub said : Text → Pair → Option Text
said k p = if equal p.0 k then some p.1 else none

collect_pairs-render :
    (p : Pair) (ss : List Text) (m : TextMap)
    → Lacks is_equals p.0
    → collect_pairs (render p ∷ ss) m ≡ collect_pairs ss ((p.0, p.1) ∷ m)
unfolding collect_pairs
collect_pairs-render p ss m h = rw (split_once-append is_equals p.0 b'=' p.1 h refl, collect_pairs)

get-said :
    (k : Text) (p : Pair) (m : TextMap)
    → get k ((p.0, p.1) ∷ m) ≡ (elim (said k p) [ none ↦ get k m | some v ↦ some v ])
unfolding get
get-said k p m = elim (Bool-cases (equal p.0 k)) [
  | inl hit ↦ rw (hit, get)
  | inr miss ↦ rw (miss, get)
]

-- What stands behind the last zero byte, if the last pair is ended by one, too.
abbrev pub ending : Bool → List Text
ending true = [] ∷ []
ending false = []

-- The last value that is given for a key.
abbrev pub value : Text → List Pair → Option Text
value k ps = last_said (said k) ps none

-- The map holds the last value of each key.
pub get-collect_pairs :
    (k : Text) (ps : List Pair) (ended : Bool) (m : TextMap)
    → All (λ (p : Pair). Lacks is_equals p.0) ps
    → get k (collect_pairs (map render ps ++ ending ended) m) ≡ last_said (said k) ps (get k m)
unfolding collect_pairs get
get-collect_pairs k [] true m h = rw (split_once-Lacks is_equals [] tt, get, collect_pairs)
get-collect_pairs k [] false m h = refl
get-collect_pairs k (p ∷ ps) ended m h =
    ap (get k) (collect_pairs-render p (map render ps ++ ending ended) m h.0)
    ∙ get-collect_pairs k ps ended ((p.0, p.1) ∷ m) h.1
    ∙ ap (last_said (said k) ps) (get-said k p m)

abbrev pub event_name : EventType → Text
event_name add = codes "add"
event_name remove = codes "remove"
event_name change = codes "change"
event_name move = codes "move"
event_name online = codes "online"
event_name offline = codes "offline"
event_name bind = codes "bind"
event_name unbind = codes "unbind"

-- A message of the kernel: the event with the path of the device, then the pairs, with a zero byte
-- between two parts and, if `ended`, one behind the last.
abbrev pub message : EventType → Text → List Pair → Bool → Text
message e path ps ended =
    join (0 ∷ []) ((event_name e ++ b'@' ∷ path) ∷ (map render ps ++ ending ended))

-- ===== src/Dev/Clean.antt =====
-- Which texts can stand in a message of the kernel.
use tinyboot.Prelude.{
  ℕ, ◌==◌, Bool, true, false, not, ◌&&◌, ◌||◌, List, [], ◌∷◌, ◌++◌, map, ◌≡◌, refl, arith, All,
  All-append,
}
use tinyboot.Text.{Text, codes, Lacks}
use tinyboot.Dev.{is_equals, EventType, add, remove, change, move, online, offline, bind, unbind}
use tinyboot.Dev.Pairs.{Pair, ending, render, event_name}

abbrev pub is_zero_byte : ℕ → Bool
is_zero_byte c = c == 0

-- A pair that can be taken out of a message.
pub record IsClean (p : Pair) : Type 0 where
  pub key : Lacks is_equals p.0
  pub key_free : Lacks is_zero_byte p.0
  pub free : Lacks is_zero_byte p.1

-- A literal with neither sign, by evaluation.
abbrev is_plain : Text → Bool
is_plain [] = true
is_plain (c ∷ s) = not (is_equals c || is_zero_byte c) && is_plain s

pub is_plain-Lacks : (s : Text) → is_plain s ≡ true → Lacks is_equals s × Lacks is_zero_byte s
is_plain-Lacks [] h = (tt, tt)
is_plain-Lacks (c ∷ s) h =
    let here : (is_equals c ≡ false) × (is_zero_byte c ≡ false) = ground arith in
    let rest = is_plain-Lacks s (ground arith) in ((here.0, rest.0), (here.1, rest.1))

-- A pair of two such literals, by evaluation.
abbrev is_plain_pair : Pair → Bool
is_plain_pair p = is_plain p.0 && is_plain p.1

plain_pair-IsClean : (p : Pair) → is_plain_pair p ≡ true → IsClean p
plain_pair-IsClean p h =
    let key = is_plain-Lacks p.0 (ground arith) in
    record { key = key.0; key_free = key.1; free = (is_plain-Lacks p.1 (ground arith)).1 }

abbrev all_plain : List Pair → Bool
all_plain [] = true
all_plain (p ∷ ps) = is_plain_pair p && all_plain ps

pub all_plain-IsClean : (ps : List Pair) → all_plain ps ≡ true → All IsClean ps
all_plain-IsClean [] h = tt
all_plain-IsClean (p ∷ ps) h =
    (plain_pair-IsClean p (ground arith), all_plain-IsClean ps (ground arith))

pub render-Lacks :
    (ps : List Pair) (ended : Bool)
    → All IsClean ps
    → All (Lacks is_zero_byte) (map render ps ++ ending ended)
render-Lacks [] true h = (tt, tt)
render-Lacks [] false h = tt
render-Lacks (p ∷ ps) ended h = (
  All-append (λ c. is_zero_byte c ≡ false) p.0 (b'=' ∷ p.1) h.0.key_free (refl, h.0.free),
  render-Lacks ps ended h.1,
)

pub keys-Lacks : (ps : List Pair) → All IsClean ps → All (λ (p : Pair). Lacks is_equals p.0) ps
keys-Lacks [] h = tt
keys-Lacks (p ∷ ps) h = (h.0.key, keys-Lacks ps h.1)

event_name_free : (e : EventType) → Lacks is_zero_byte (event_name e)
event_name_free add = (is_plain-Lacks (codes "add") refl).1
event_name_free remove = (is_plain-Lacks (codes "remove") refl).1
event_name_free change = (is_plain-Lacks (codes "change") refl).1
event_name_free move = (is_plain-Lacks (codes "move") refl).1
event_name_free online = (is_plain-Lacks (codes "online") refl).1
event_name_free offline = (is_plain-Lacks (codes "offline") refl).1
event_name_free bind = (is_plain-Lacks (codes "bind") refl).1
event_name_free unbind = (is_plain-Lacks (codes "unbind") refl).1

pub event_name-Lacks :
    (e : EventType) (path : Text)
    → Lacks is_zero_byte path
    → Lacks is_zero_byte (event_name e ++ b'@' ∷ path)
event_name-Lacks e path h =
    All-append (λ c. is_zero_byte c ≡ false) (event_name e) (b'@' ∷ path) (event_name_free e)
      (refl, h)

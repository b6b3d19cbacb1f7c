-- ===== src/FilePath/Laws.antt =====
-- What a file name that is joined to a directory gives back.
use tinyboot.Prelude.{
  some-injective, sym, ◌∙◌, ℕ, Bool, true, false, List, [], ◌∷◌, ◌++◌, some, ◌≡◌, ◌↔◌, refl, arith,
  ap, ◌==◌, append_assoc, append-nil,
}
use tinyboot.Text.{Text, codes, equal, split, split_onto, Lacks}
use tinyboot.Text.Cut.{equal_iff}
use tinyboot.FilePath.{
  FilePath, components, is_absolute, from_text, append, init, last, parent_of, parent, file_name,
  named, equal_path, equal_parts,
}

init-concat : (ps : List Text) (n : Text) → init (ps ++ n ∷ []) ≡ ps
init-concat [] n = refl
init-concat (p ∷ []) n = refl
init-concat (p ∷ q ∷ ps) n = ap (λ (xs : List Text). p ∷ xs) (init-concat (q ∷ ps) n)

last-concat : (ps : List Text) (n : Text) → last (ps ++ n ∷ []) ≡ some n
last-concat [] n = refl
last-concat (p ∷ []) n = refl
last-concat (p ∷ q ∷ ps) n = last-concat (q ∷ ps) n

-- A file name that a directory can hold, and that a path can end in.
pub record IsFileName (n : Text) : Type 0 where
  pub ne_nil : equal n [] ≡ false
  pub ne_dot : equal n (codes ".") ≡ false
  pub ne_dots : equal n (codes "..") ≡ false
  pub no_slash : Lacks (λ c. c == b'/') n

pub split_onto-Lacks :
    (k : ℕ) (cur s : Text) → Lacks (λ c. c == k) s → split_onto k cur s ≡ (cur ++ s) ∷ []
unfolding split_onto
split_onto-Lacks k cur [] h = rw append-nil
split_onto-Lacks k cur (c ∷ s) h =
    ground (arith, h.0, split_onto-Lacks k (cur ++ c ∷ []) s h.1, append_assoc cur (c ∷ []) s)

is_absolute-Lacks : (s : Text) → Lacks (λ c. c == b'/') s → is_absolute s ≡ false
unfolding is_absolute
is_absolute-Lacks [] h = refl
is_absolute-Lacks (c ∷ s) h = h.0

-- A file name is read as the one component that it is.
pub from_text-named : (n : Text) → IsFileName n → from_text n ≡ named n
unfolding from_text split components
from_text-named n h =
    rw (is_absolute-Lacks n h.no_slash, split_onto-Lacks b'/' [] n h.no_slash, h.ne_nil, h.ne_dot)

parent_of-concat :
    (b : Bool) (ps : List Text) (n : Text)
    → parent_of b (ps ++ n ∷ []) ≡ some (record { absolute = b; parts = ps })
parent_of-concat b [] n = refl
parent_of-concat b (p ∷ ps) n = rw (init-concat (p ∷ ps) n)

pub parent-append : (d : FilePath) (n : Text) → parent (append d (named n)) ≡ some d
unfolding parent append
parent-append d n = parent_of-concat d.absolute d.parts n

pub file_name-append :
    (d : FilePath) (n : Text) → IsFileName n → file_name (append d (named n)) ≡ some n
unfolding file_name append
file_name-append d n h = ground (arith, last-concat d.parts n, h.ne_dots)

equal_parts_iff : (ps qs : List Text) → (equal_parts ps qs ≡ true) ↔ (ps ≡ qs)
unfolding equal_parts
equal_parts_iff (p ∷ ps) (q ∷ qs) = ground (arith, equal_iff p q, equal_parts_iff ps qs)
equal_parts_iff _ _ = ground arith

pub equal_path_iff : (p q : FilePath) → (equal_path p q ≡ true) ↔ (p ≡ q)
unfolding equal_path
equal_path_iff p q = ground (arith, equal_parts_iff p.parts q.parts)

pub named-injective : (d : FilePath) (m n : Text) → append d (named m) ≡ append d (named n) → m ≡ n
unfolding append
named-injective d m n h =
    some-injective
      (sym (last-concat d.parts m) ∙ ap (λ (p : FilePath). last p.parts) h ∙ last-concat d.parts n)

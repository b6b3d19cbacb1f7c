-- ===== src/Text/Lines.antt =====
-- Lines that are written one after the other, and read back.
use mathlib.Core.List.{reverse-reverse}
use tinyboot.Prelude.{
  append-nil, not, ◌&&◌, ℕ, Bool, true, false, ◌||◌, [], ◌∷◌, ◌++◌, append_assoc, reverse, ◌≡◌,
  refl, arith, ◌==◌, All-reverse, ap, ◌∙◌, sym,
}
use tinyboot.Text.{Text, Lacks, drop_return, lines, lines_onto}

abbrev pub is_line_end : ℕ → Bool
is_line_end c = c == b'\n' || c == b'\r'

drop_return-Lacks : (s : Text) → Lacks is_line_end s → drop_return s ≡ s
drop_return-Lacks s h = by_last (reverse s) refl (All-reverse (λ c. is_line_end c ≡ false) s h)
  where
    by_last : (r : Text) → reverse s ≡ r → Lacks is_line_end r → drop_return s ≡ s
    by_last [] e k = rw (e, drop_return) (sym (ap reverse e) ∙ reverse-reverse s)
    by_last (c ∷ r) e k = rw (e, drop_return) (ground (arith, k.0))

lines_onto-cons :
    (w cur s : Text)
    → Lacks is_line_end w
    → lines_onto cur (w ++ b'\n' ∷ s) ≡ drop_return (cur ++ w) ∷ lines_onto [] s
unfolding lines_onto
lines_onto-cons [] cur s h = rw append-nil
lines_onto-cons (c ∷ w) cur s h =
    ground (arith, h.0, lines_onto-cons w (cur ++ c ∷ []) s h.1, append_assoc cur (c ∷ []) w)

-- A line that is ended is read as it was written.
pub lines-cons : (w s : Text) → Lacks is_line_end w → lines (w ++ b'\n' ∷ s) ≡ w ∷ lines s
unfolding lines
lines-cons w s h = lines_onto-cons w [] s h ∙ ap (λ v. v ∷ lines_onto [] s) (drop_return-Lacks w h)

-- A literal is one line by evaluation.
abbrev pub one_line : Text → Bool
one_line [] = true
one_line (c ∷ s) = not (is_line_end c) && one_line s

pub literal_line : (s : Text) → one_line s ≡ true → Lacks is_line_end s
literal_line [] h = tt
literal_line (c ∷ s) h = ground (arith, literal_line s)

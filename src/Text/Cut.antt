-- ===== src/Text/Cut.antt =====
-- Prefixes, suffixes and `split_once`.
use mathlib.Core.List.{reverse-append, reverse-reverse}
use tinyboot.Prelude.{
  ℕ, Bool, true, ◌==◌, ==_iff, [], ◌∷◌, ◌++◌, reverse, Option, none, some, Option-cases, Bool-cases,
  inl, inr, ◌≡◌, ◌↔◌, refl, arith, ap, sym, ◌∙◌,
}
use tinyboot.Text.{Text, equal, strip_prefix, strip_suffix, split_once, Lacks}

pub equal_iff : (a b : Text) → (equal a b ≡ true) ↔ (a ≡ b)
unfolding equal
equal_iff (x ∷ a) (y ∷ b) = ground (arith, equal_iff a b)
equal_iff _ _ = ground arith

pub equal_refl : (a : Text) → equal a a ≡ true
equal_refl a = (equal_iff a a).1 refl

pub strip_prefix-append : (p s : Text) → strip_prefix p (p ++ s) ≡ some s
unfolding strip_prefix
strip_prefix-append [] s = refl
strip_prefix-append (c ∷ p) s = ground (arith, strip_prefix-append p s)

pub strip_prefix_sound : (p s r : Text) → strip_prefix p s ≡ some r → s ≡ p ++ r
unfolding strip_prefix
strip_prefix_sound [] s r h = ground arith
strip_prefix_sound (c ∷ p) [] r h = cc
strip_prefix_sound (c ∷ p) (d ∷ s) r h = ground (arith, strip_prefix_sound p s r)

pub strip_suffix-append : (s p : Text) → strip_suffix p (s ++ p) ≡ some s
unfolding strip_suffix
strip_suffix-append s p = rw (reverse-append, strip_prefix-append, reverse-reverse)

pub strip_suffix_sound : (p s r : Text) → strip_suffix p s ≡ some r → s ≡ r ++ p
unfolding strip_suffix
strip_suffix_sound p s r h = elim (Option-cases (strip_prefix (reverse p) (reverse s))) [
  | inl e ↦ cc (rw e at h)
  | inr (q, e) ↦
      let h' : some (reverse q) ≡ some r = rw e at h in
      let back : reverse q ≡ r = ground arith in
      sym (reverse-reverse s)
      ∙ ap reverse (strip_prefix_sound (reverse p) (reverse s) q e)
      ∙ reverse-append (reverse p) q
      ∙ rw (back, reverse-reverse)
]

-- `split_once` cuts the text at the first accepted character.
pub split_once_sound :
    (p : ℕ → Bool) (s a b : Text)
    → split_once p s ≡ some (a, b)
    → (c : ℕ) × (s ≡ a ++ c ∷ b) × (p c ≡ true) × Lacks p a
unfolding split_once
split_once_sound p [] a b h = cc
split_once_sound p (c ∷ s) a b h = elim (Bool-cases (p c)) [
  | inl hit ↦
      let h' : ◌≡◌ {A = Option (Text × Text)} (some ([], s)) (some (a, b)) = rw hit at h in
      let nil : a ≡ [] = ground arith in
      let same : b ≡ s = ground arith in (c, rw (nil, same), hit, rw nil tt)
  | inr miss ↦ elim (Option-cases (split_once p s)) [
    | inl e ↦ cc (rw (miss, e) at h)
    | inr ((x, y), e) ↦
        let h' : ◌≡◌ {A = Option (Text × Text)} (some (c ∷ x, y)) (some (a, b)) =
          rw (miss, e) at h in
        let head : a ≡ c ∷ x = ground arith in
        let same : b ≡ y = ground arith in
        let (d, cut, hit, free) = split_once_sound p s x y e in
        (d, rw (head, same, cut), hit, rw head (miss, free))
  ]
]

pub split_once-none : (p : ℕ → Bool) (s : Text) → split_once p s ≡ none → Lacks p s
unfolding split_once
split_once-none p [] h = tt
split_once-none p (c ∷ s) h = ground (arith, split_once-none p s)

pub split_once-append :
    (p : ℕ → Bool) (a : Text) (c : ℕ) (b : Text)
    → Lacks p a
    → p c ≡ true
    → split_once p (a ++ c ∷ b) ≡ some (a, b)
unfolding split_once
split_once-append p [] c b h k = rw k
split_once-append p (x ∷ a) c b h k = rw (h.0, split_once-append p a c b h.1 k)

pub split_once-Lacks : (p : ℕ → Bool) (a : Text) → Lacks p a → split_once p a ≡ none
unfolding split_once
split_once-Lacks p [] h = refl
split_once-Lacks p (x ∷ a) h = rw (h.0, split_once-Lacks p a h.1)

-- The same for a single character.
pub split_once_char :
    (k : ℕ) (s a b : Text)
    → split_once (λ c. c == k) s ≡ some (a, b)
    → (s ≡ a ++ k ∷ b) × Lacks (λ c. c == k) a
split_once_char k s a b h =
    let (c, cut, hit, free) = split_once_sound (λ c. c == k) s a b h in
    (cut ∙ ap (λ (x : ℕ). a ++ x ∷ b) ((==_iff c k).0 hit), free)

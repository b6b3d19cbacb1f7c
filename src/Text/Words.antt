-- ===== src/Text/Words.antt =====
-- `split_whitespace`, `trim` and `join`.
use mathlib.Core.List.{reverse-append, reverse-reverse}
use tinyboot.Prelude.{
  ◌≤◌, not, ◌&&◌, ℕ, Bool, true, false, List, [], ◌∷◌, ◌++◌, append_assoc, append-nil, reverse, ◌≡◌,
  ◌≢◌, refl, sym, ap, ◌∙◌, arith, All, All-append, Bool-cases, inl, inr,
}
use tinyboot.Text.Decimal.{to_string, to_string-ne-nil, to_string-IsDigit, IsDigit-Lacks}
use tinyboot.Text.{
  is_ascii_whitespace, split_ascii_whitespace, Text, Lacks, is_whitespace, trim, trim_start_by,
  trim_end_by, words_onto, put_word, split_whitespace, join,
}

-- What `split_whitespace` can give: characters, none of them white space.
pub record IsWord (p : ℕ → Bool) (w : Text) : Type 0 where
  pub ne_nil : w ≢ []
  pub free : Lacks p w

-- Every character is accepted.
abbrev Only : (ℕ → Bool) → Text → Type 0
Only p = All (λ c. p c ≡ true)

module _ (p : ℕ → Bool) where
  words-Lacks : (w s cur : Text) → Lacks p w → words_onto p cur (w ++ s) ≡ words_onto p (cur ++ w) s
  unfolding words_onto
  words-Lacks [] s cur h = rw append-nil
  words-Lacks (c ∷ w) s cur h =
      ground (arith, h.0, words-Lacks w s (cur ++ c ∷ []) h.1, append_assoc cur (c ∷ []) w)

  words_at_space :
      (c : ℕ) (s cur : Text)
      → p c ≡ true
      → words_onto p cur (c ∷ s) ≡ put_word cur (words_onto p [] s)
  unfolding words_onto
  words_at_space c s cur h = rw (h, words_onto)

  put_word-cons : (w : Text) (ws : List Text) → w ≢ [] → put_word w ws ≡ w ∷ ws
  put_word-cons [] ws h = absurd (h refl)
  put_word-cons (c ∷ w) ws h = refl

  -- Words behind separators are given back.
  words-join :
      (sep : ℕ) (ws : List Text)
      → p sep ≡ true
      → All (IsWord p) ws
      → words_onto p [] (join (sep ∷ []) ws) ≡ ws
  unfolding join
  words-join sep [] k h = unfold words_onto in refl
  words-join sep (w ∷ []) k h =
      ap (words_onto p []) (sym (append-nil w))
      ∙ words-Lacks w [] [] h.0.free
      ∙ unfold words_onto in put_word-cons w [] h.0.ne_nil
  words-join sep (w ∷ v ∷ ws) k h =
      words-Lacks w (sep ∷ join (sep ∷ []) (v ∷ ws)) [] h.0.free
      ∙ words_at_space sep (join (sep ∷ []) (v ∷ ws)) w k
      ∙ put_word-cons w _ h.0.ne_nil
      ∙ ap (λ (rest : List Text). w ∷ rest) (words-join sep (v ∷ ws) k h.1)

  -- White space in front, and behind, makes no words.
  words-trim_start : (s : Text) → words_onto p [] (trim_start_by p s) ≡ words_onto p [] s
  unfolding trim_start_by words_onto
  words-trim_start [] = refl
  words-trim_start (c ∷ s) = ground (arith, words-trim_start s)

  words-Only : (s cur : Text) → Only p s → words_onto p cur s ≡ put_word cur []
  unfolding words_onto
  words-Only [] cur h = refl
  words-Only (c ∷ s) cur h = ground (arith, h.0, words-Only s [] h.1)

  words-append-Only : (s t cur : Text) → Only p t → words_onto p cur (s ++ t) ≡ words_onto p cur s
  unfolding words_onto
  words-append-Only [] t cur h = words-Only t cur h
  words-append-Only (c ∷ s) t cur h =
      ground (arith, words-append-Only s t [] h, words-append-Only s t (cur ++ c ∷ []) h)

  trim_start_cut : (s : Text) → (t : Text) × (s ≡ t ++ trim_start_by p s) × Only p t
  unfolding trim_start_by
  trim_start_cut [] = ([], refl, tt)
  trim_start_cut (c ∷ s) = elim (Bool-cases (p c)) [
    | inl space ↦
        let (t, cut, only) = trim_start_cut s in
        (c ∷ t, rw space (ap (λ (x : Text). c ∷ x) cut), (space, only))
    | inr word ↦ ([], rw word, tt)
  ]

  Only-reverse : (t : Text) → Only p t → Only p (reverse t)
  Only-reverse [] h = tt
  Only-reverse (c ∷ t) h =
      rw (reverse-append (c ∷ []) t)
        (All-append (λ d. p d ≡ true) (reverse t) (c ∷ []) (Only-reverse t h.1) (h.0, tt))

  words-trim_end : (s cur : Text) → words_onto p cur (trim_end_by p s) ≡ words_onto p cur s
  unfolding trim_end_by
  words-trim_end s cur =
      let (t, cut, only) = trim_start_cut (reverse s) in
      let whole : s ≡ reverse (trim_start_by p (reverse s)) ++ reverse t =
        sym (reverse-reverse s) ∙ ap reverse cut ∙ reverse-append t (trim_start_by p (reverse s)) in
      sym (
        words-append-Only (reverse (trim_start_by p (reverse s))) (reverse t) cur
          (Only-reverse t only))
      ∙ ap (words_onto p cur) (sym whole)

-- Trimming changes no word.
pub split_whitespace-trim : (s : Text) → split_whitespace (trim s) ≡ split_whitespace s
unfolding split_whitespace trim
split_whitespace-trim s =
    words-trim_end is_whitespace (trim_start_by is_whitespace s) []
    ∙ words-trim_start is_whitespace s

-- A command line is split into the words that were joined.
pub split_whitespace-join :
    (ws : List Text) → All (IsWord is_whitespace) ws → split_whitespace (join (b' ' ∷ []) ws) ≡ ws
unfolding split_whitespace
split_whitespace-join ws h = words-join is_whitespace b' ' ws (unfold is_whitespace in refl) h

put_word-IsWord :
    (p : ℕ → Bool) (w : Text) (ws : List Text)
    → Lacks p w
    → All (IsWord p) ws
    → All (IsWord p) (put_word w ws)
put_word-IsWord p [] ws h k = k
put_word-IsWord p (c ∷ w) ws h k = (record { ne_nil = λ e. cc e; free = h }, k)

words_onto-IsWord :
    (p : ℕ → Bool) (s cur : Text) → Lacks p cur → All (IsWord p) (words_onto p cur s)
unfolding words_onto
words_onto-IsWord p [] cur h = put_word-IsWord p cur [] h tt
words_onto-IsWord p (c ∷ s) cur h = elim (Bool-cases (p c)) [
  | inl space ↦
      rw (space, words_onto)
        (put_word-IsWord p cur (words_onto p [] s) h (words_onto-IsWord p s [] tt))
  | inr other ↦
      rw (other, words_onto)
        (words_onto-IsWord p s (cur ++ c ∷ [])
          (All-append (λ d. p d ≡ false) cur (c ∷ []) h (other, tt)))
]

-- What `split_whitespace` gives are words.
split_whitespace-IsWord : (s : Text) → All (IsWord is_whitespace) (split_whitespace s)
unfolding split_whitespace
split_whitespace-IsWord s = words_onto-IsWord is_whitespace s [] tt

pub IsWord-append :
    (p : ℕ → Bool) (c : ℕ) (v w : Text) → Lacks p (c ∷ v) → Lacks p w → IsWord p (c ∷ (v ++ w))
IsWord-append p c v w h k = record {
  ne_nil = λ e. cc e;
  free = (h.0, All-append (λ d. p d ≡ false) v w h.1 k);
}

-- A literal is a word by evaluation.
unfoldable pub is_word : Text → Bool
is_word [] = false
is_word (c ∷ []) = not (is_whitespace c)
is_word (c ∷ d ∷ w) = not (is_whitespace c) && is_word (d ∷ w)

literal_free : (w : Text) → is_word w ≡ true → Lacks is_whitespace w
unfolding is_word
literal_free [] h = tt
literal_free (c ∷ []) h = ground arith
literal_free (c ∷ d ∷ w) h = ground (arith, literal_free (d ∷ w))

pub literal : (w : Text) → is_word w ≡ true → IsWord is_whitespace w
unfolding is_word
literal [] h = cc
literal (c ∷ w) h = record { ne_nil = λ e. cc e; free = literal_free (c ∷ w) h }

digit-not-space : (c : ℕ) → (b'0' ≤ c) × (c ≤ b'9') → is_whitespace c ≡ false
unfolding is_whitespace
digit-not-space c h = ground arith

-- A number is a word.
pub to_string-IsWord : (n : ℕ) → IsWord is_whitespace (to_string n)
to_string-IsWord n = record {
  ne_nil = to_string-ne-nil n;
  free = IsDigit-Lacks is_whitespace (to_string n) digit-not-space (to_string-IsDigit n);
}

pub split_whitespace-space : (w : Text) → split_whitespace (w ++ b' ' ∷ []) ≡ split_whitespace w
unfolding split_whitespace
split_whitespace-space w =
    words-append-Only is_whitespace w (b' ' ∷ []) [] (unfold is_whitespace in refl, tt)

ascii_free : (w : Text) → Lacks is_whitespace w → Lacks is_ascii_whitespace w
unfolding is_whitespace is_ascii_whitespace
ascii_free [] h = tt
ascii_free (c ∷ w) h = (ground (arith, h.0), ascii_free w h.1)

-- A word is the only one of its text.
pub split_ascii_whitespace-word :
    (w : Text) → IsWord is_whitespace w → split_ascii_whitespace w ≡ w ∷ []
unfolding split_ascii_whitespace join
split_ascii_whitespace-word w h =
    words-join is_ascii_whitespace b' ' (w ∷ []) (unfold is_ascii_whitespace in refl)
      (record { ne_nil = h.ne_nil; free = ascii_free w h.free }, tt)

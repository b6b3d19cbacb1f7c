-- ===== src/System/Log.antt =====
-- What `kernel_logs` makes of the entries of the log.
use tinyboot.Prelude.{
  ℕ, ◌+◌, ◌-◌, ◌≤◌, Bool, List, [], ◌∷◌, ◌++◌, append_assoc, append-nil, map, none, some,
  if◌then◌else◌, leb, ◌&&◌, ◌==◌, ==_iff, length, length-append, ◌≡◌, refl, ap, sym, ◌∙◌, arith,
  All, Bool-cases, inl, inr,
}
use tinyboot.Result.{ok}
use tinyboot.Text.{Text, split, split_onto, join, Lacks}
use tinyboot.System.{
  KernelLogs, panicked, newline, ascii_integer_start, max_level, line_level, filter_line,
  fold_lines, remove, text_of, kernel_logs,
}

-- An entry of the log: its level, and its text, which is a byte and more.
pub record Entry : Type 0 where
  pub level : ℕ
  pub head : ℕ
  pub tail : Text

abbrev pub text : Entry → Text
text e = e.head ∷ e.tail

-- The line of an entry.
abbrev pub line : Entry → Text
line e = b'<' ∷ (ascii_integer_start + e.level) ∷ b'>' ∷ text e

-- A level of one digit, and a text of one line.
pub record IsEntry (e : Entry) : Type 0 where
  pub digit : e.level ≤ 9
  pub one_line : Lacks (λ c. c == newline) (text e)

-- The texts of the entries whose level is at most the given one, and at most 7.
abbrev pub shown : ℕ → List Entry → List Text
shown level [] = []
shown level (e ∷ es) =
    if leb e.level level && leb e.level 7 then text e ∷ shown level es else shown level es

-- The bound is the smaller of the two.
leb-max_level : (n level : ℕ) → leb n (max_level level) ≡ (leb n level && leb n 7)
unfolding max_level
leb-max_level n level = ground arith

-- Every line with its end.
ended : List Text → Text
ended [] = []
ended (t ∷ ts) = (t ++ newline ∷ []) ++ ended ts

line_level-add : (n : ℕ) → n ≤ 9 → line_level (ascii_integer_start + n) ≡ n
unfolding line_level
line_level-add n h = omega (arith, h)

filter_line-line :
    (max : ℕ) (e : Entry)
    → e.level ≤ 9
    → filter_line max (line e) ≡ (if leb e.level max then some (text e) else none)
unfolding filter_line
filter_line-line max e h =
    ap (λ n. if leb n max then some (text e) else none) (line_level-add e.level h)

fold_lines-ended :
    (level : ℕ) (es : List Entry) (acc : Text)
    → All IsEntry es
    → fold_lines (max_level level) (map line es ++ [] ∷ []) acc ≡ acc ++ ended (shown level es)
unfolding fold_lines filter_line ended
fold_lines-ended level [] acc h = rw append-nil
fold_lines-ended level (e ∷ es) acc h = elim (Bool-cases (leb e.level level && leb e.level 7)) [
  | inl low ↦
      rw
        (
          fold_lines,
          filter_line-line (max_level level) e h.0.digit,
          leb-max_level e.level level,
          low,
          fold_lines-ended level es ((acc ++ text e) ++ newline ∷ []) h.1,
          append_assoc,
        )
        (append_assoc acc (text e) (newline ∷ ended (shown level es))
          ∙ ap (λ s. acc ++ e.head ∷ s)
              (sym (append_assoc e.tail (newline ∷ []) (ended (shown level es)))))
  | inr high ↦ rw (
    fold_lines,
    filter_line-line (max_level level) e h.0.digit,
    leb-max_level e.level level,
    high,
    fold_lines-ended level es acc h.1,
  )
]

-- The log: every line is ended.
abbrev pub log : List Entry → Text
log [] = []
log (e ∷ es) = line e ++ newline ∷ log es

split_onto-append :
    (k : ℕ) (w s cur : Text)
    → Lacks (λ c. c == k) w
    → split_onto k cur (w ++ k ∷ s) ≡ (cur ++ w) ∷ split_onto k [] s
unfolding split_onto
split_onto-append k [] s cur h = ground (arith, (==_iff k k).1 refl, append-nil cur)
split_onto-append k (c ∷ w) s cur h =
    ground (arith, h.0, split_onto-append k w s (cur ++ c ∷ []) h.1, append_assoc cur (c ∷ []) w)

line_free : (e : Entry) → IsEntry e → Lacks (λ c. c == newline) (line e)
line_free e h = (refl, (ground arith, (refl, h.one_line)))

split-log : (es : List Entry) → All IsEntry es → split newline (log es) ≡ map line es ++ [] ∷ []
unfolding split split_onto
split-log [] h = refl
split-log (e ∷ es) h =
    split_onto-append newline (line e) (log es) [] (line_free e h.0)
    ∙ ap (◌∷◌ (line e)) (split-log es h.1)

remove-last : (xs : Text) (c : ℕ) → remove (length xs) (xs ++ c ∷ []) ≡ some xs
unfolding remove
remove-last [] c = refl
remove-last (x ∷ xs) c = rw (remove-last xs c)

ended-join :
    (t : Text) (ts : List Text) → ended (t ∷ ts) ≡ join (newline ∷ []) (t ∷ ts) ++ newline ∷ []
unfolding ended join
ended-join t [] = rw append-nil
ended-join t (v ∷ ts) = rw (ended-join v ts) (
    append_assoc t (newline ∷ []) (join (newline ∷ []) (v ∷ ts) ++ newline ∷ [])
    ∙ sym (append_assoc t (newline ∷ join (newline ∷ []) (v ∷ ts)) (newline ∷ [])))

length-last : (xs : Text) (c : ℕ) → length (xs ++ c ∷ []) - 1 ≡ length xs
length-last xs c = omega (arith, length-append xs (c ∷ []))

-- What `kernel_logs` is to give for the texts that are shown: of none there is a panic.
abbrev pub shown_as {ℓ} : {E : Type ℓ} → (Text → Bool) → List Text → KernelLogs E
shown_as is_utf8 [] = panicked
shown_as is_utf8 (t ∷ ts) = text_of is_utf8 (some (join (newline ∷ []) (t ∷ ts)))

removed {ℓ} :
    {E : Type ℓ} (is_utf8 : Text → Bool) (ts : List Text)
    → text_of {E = E} is_utf8 (remove (length (ended ts) - 1) (ended ts)) ≡ shown_as is_utf8 ts
unfolding ended remove
removed is_utf8 [] = refl
removed is_utf8 (t ∷ ts) =
    rw (ended-join t ts, length-last (join (newline ∷ []) (t ∷ ts)) newline, remove-last)

-- The log of the kernel is shown as the texts of the entries up to the level, of which 7 is the
-- highest, one on a line, in their order: if every level has one digit, every text is a line of one
-- byte or more, and the bytes are UTF-8. Without UTF-8, and where no entry is to be shown, there is
-- a panic.
pub kernel_logs-log {ℓ} :
    {E : Type ℓ} (is_utf8 : Text → Bool) (level : ℕ) (es : List Entry)
    → All IsEntry es
    → kernel_logs {E = E} is_utf8 (ok (log es)) level ≡ shown_as is_utf8 (shown level es)
unfolding kernel_logs
kernel_logs-log is_utf8 level es h =
    rw (split-log es h, fold_lines-ended level es [] h, removed is_utf8 (shown level es))

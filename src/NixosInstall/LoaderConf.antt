-- ===== src/NixosInstall/LoaderConf.antt =====
-- The file loader.conf that the installer writes, as the boot loader reads it.
use mathlib.Core.Option
use tinyboot.FilePath.Laws.{equal_path_iff}
use tinyboot.NixosInstall.Keeps.{lookup-write}
use tinyboot.Result.{to_option}
use tinyboot.Fs.{Fs, file, lookup, read_to_string}
use mathlib.Core.List.{reverse-append, reverse-reverse}
use tinyboot.Prelude.{
  drop, length, append-nil, zero, suc, ℕ, ◌≤◌, false, [], ◌∷◌, ◌++◌, append_assoc, reverse, none,
  some, if◌then◌else◌, ◌≡◌, refl, arith, ap, sym, ◌∙◌, All, All-append, All-reverse, Bool-cases,
  inl, inr,
}
use tinyboot.Text.{
  Text, codes, lines, join, starts_with, strip_prefix, is_whitespace, trim_end_matches,
  trim_start_matches, trim_matches_for, Lacks,
}
use tinyboot.Text.Decimal.{
  u32_max, u64_max, from_str_radix-to_string, to_string, to_string-IsDigit, to_string-ne-nil,
  IsDigit, IsDigit-Lacks,
}
use tinyboot.Text.Words.{IsWord, literal, is_word, to_string-IsWord, split_whitespace-join}
use tinyboot.Text.Lines.{is_line_end, lines-cons, literal_line}
use tinyboot.FilePath.{FilePath, equal_path}
use tinyboot.BootLoader.Conf.{
  LoaderConf, last_of, last_word, timeout_line, default_line, conf_line, conf_lines,
  parse_loader_conf,
}
use tinyboot.NixosInstall.{write_over, text_or_empty, Args, newline, loader_conf_text}

to_string-one_line : (n : ℕ) → Lacks is_line_end (to_string n)
to_string-one_line n =
    IsDigit-Lacks is_line_end (to_string n) (λ c h. ground arith) (to_string-IsDigit n)

last_word-pair :
    (k w : Text)
    → IsWord is_whitespace k
    → IsWord is_whitespace w
    → last_word (k ++ b' ' ∷ w) ≡ some w
unfolding last_word join
last_word-pair k w h i = ap last_of (split_whitespace-join (k ∷ w ∷ []) (h, (i, tt)))

-- The name of a generation.
abbrev pub generation_name : ℕ → Text
generation_name n = codes "nixos-generation-" ++ to_string n

generation_name-IsWord : (n : ℕ) → IsWord is_whitespace (generation_name n)
unfolding is_whitespace is_word
generation_name-IsWord n = record {
  ne_nil = λ e. cc e;
  free =
      All-append (λ c. is_whitespace c ≡ false) (codes "nixos-generation-") (to_string n)
        (literal (codes "nixos-generation-") refl).free (to_string-IsWord n).free;
}

-- A text that ends in a digit has no `.conf` to be taken off.
trim_end_matches-to_string :
    (s : Text) (n : ℕ) → trim_end_matches (codes ".conf") (s ++ to_string n) ≡ s ++ to_string n
unfolding trim_end_matches trim_start_matches trim_matches_for strip_prefix
trim_end_matches-to_string s n =
    by_last (reverse (to_string n)) refl (All-reverse IsDigit (to_string n) (to_string-IsDigit n))
  where
    by_last :
        (r : Text)
        → reverse (to_string n) ≡ r
        → All IsDigit r
        → trim_end_matches (codes ".conf") (s ++ to_string n) ≡ s ++ to_string n
    by_last [] e h =
        absurd (to_string-ne-nil n (sym (reverse-reverse (to_string n)) ∙ ap reverse e))
    by_last (c ∷ r) e h =
        let whole : reverse (s ++ to_string n) ≡ c ∷ (r ++ reverse s) =
          reverse-append s (to_string n) ∙ ap (λ x. x ++ reverse s) e in
        rw (trim_end_matches, whole)
          (ground (arith, h.0, sym (ap reverse whole) ∙ reverse-reverse (s ++ to_string n)))

module _ (n t : ℕ) where
  abbrev timeout_text : Text
  timeout_text = codes "timeout" ++ b' ' ∷ to_string t

  abbrev default_text : Text
  default_text = codes "default" ++ b' ' ∷ generation_name n

  word_of_timeout : last_word timeout_text ≡ some (to_string t)
  unfolding is_word is_whitespace
  word_of_timeout =
      last_word-pair (codes "timeout") (to_string t) (literal (codes "timeout") refl)
        (to_string-IsWord t)

  word_of_default : last_word default_text ≡ some (generation_name n)
  unfolding is_word is_whitespace
  word_of_default =
      last_word-pair (codes "default") (generation_name n) (literal (codes "default") refl)
        (generation_name-IsWord n)

  conf_line-timeout :
      (conf : LoaderConf) → t ≤ u64_max → conf_line conf timeout_text ≡ record conf { timeout = t }
  unfolding conf_line timeout_line default_line starts_with strip_prefix
  conf_line-timeout conf h = ground (arith, word_of_timeout, from_str_radix-to_string u64_max t h)

  conf_line-default :
      (conf : LoaderConf)
      → conf_line conf default_text ≡ record conf { default_entry = some (generation_name n) }
  unfolding conf_line timeout_line default_line starts_with strip_prefix
  conf_line-default conf =
      ground (arith, word_of_default, trim_end_matches-to_string (codes "nixos-generation-") n)

timeout_line-one_line : (t : ℕ) → Lacks is_line_end (codes "timeout" ++ b' ' ∷ to_string t)
timeout_line-one_line t =
    All-append (λ c. is_line_end c ≡ false) (codes "timeout ") (to_string t)
      (literal_line (codes "timeout ") refl) (to_string-one_line t)

default_line-one_line : (n : ℕ) → Lacks is_line_end (codes "default" ++ b' ' ∷ generation_name n)
default_line-one_line n =
    All-append (λ c. is_line_end c ≡ false) (codes "default nixos-generation-") (to_string n)
      (literal_line (codes "default nixos-generation-") refl) (to_string-one_line n)

lines-timeout :
    (t : ℕ) (s : Text)
    → lines ((codes "timeout " ++ (to_string t ++ newline)) ++ s)
      ≡ (codes "timeout" ++ b' ' ∷ to_string t) ∷ lines s
lines-timeout t s =
    ap (λ x. lines (codes "timeout " ++ x)) (append_assoc (to_string t) newline s)
    ∙ lines-cons (codes "timeout" ++ b' ' ∷ to_string t) s (timeout_line-one_line t)

lines-default :
    (n : ℕ)
    → lines (codes "default nixos-generation-" ++ (to_string n ++ newline))
      ≡ (codes "default" ++ b' ' ∷ generation_name n) ∷ []
unfolding lines
lines-default n =
    lines-cons (codes "default" ++ b' ' ∷ generation_name n) [] (default_line-one_line n)

-- The text by itself.
parse-loader_conf_text :
    (args : Args) (n : ℕ) (closure : FilePath)
    → args.timeout ≤ u32_max
    → parse_loader_conf (loader_conf_text args n closure) ≡ record {
      default_entry =
          if equal_path closure args.default_nixos_system_closure
          then some (generation_name n)
          else none;
      timeout = args.timeout;
    }
unfolding parse_loader_conf loader_conf_text conf_lines lines
parse-loader_conf_text args n closure h =
    elim (Bool-cases (equal_path closure args.default_nixos_system_closure)) [
      | inl chosen ↦ rw (
        chosen,
        lines-timeout args.timeout (codes "default nixos-generation-" ++ (to_string n ++ newline)),
        lines-default n,
        conf_line-timeout n args.timeout (record { default_entry = none; timeout = 5 })
            (omega arith),
        conf_line-default n args.timeout (record { default_entry = none; timeout = args.timeout }),
      )
      | inr other ↦ rw (
        other,
        lines-timeout args.timeout [],
        conf_line-timeout n args.timeout (record { default_entry = none; timeout = 5 })
            (omega arith),
      )
    ]

drop-nil : (n : ℕ) (s : Text) → length s ≤ n → drop n s ≡ []
unfolding drop
drop-nil zero [] h = refl
drop-nil zero (c ∷ s) h = absurd (omega (arith, h))
drop-nil (suc n) [] h = refl
drop-nil (suc n) (c ∷ s) h = drop-nil n s (omega (arith, h))

-- Where the text that was in the file, if there was one, is no longer than the new one, and the
-- timeout fits 32 bits, the boot loader reads from the file that is written the timeout that the
-- installer was called with, and as its default the name of the generation, if that is the system
-- that the installer was called with, or else none.
pub parse-write_over :
    (args : Args) (n : ℕ) (closure conf : FilePath) (fs fs' : Fs)
    → args.timeout ≤ u32_max
    → length (text_or_empty (read_to_string conf fs)) ≤ length (loader_conf_text args n closure)
    → write_over conf (loader_conf_text args n closure) fs ≡ some fs'
    → Option.map parse_loader_conf (to_option (read_to_string conf fs'))
      ≡ some (record {
        default_entry =
            if equal_path closure args.default_nixos_system_closure
            then some (generation_name n)
            else none;
        timeout = args.timeout;
      })
unfolding write_over read_to_string
parse-write_over args n closure conf fs fs' fits short h =
    let s : Text = loader_conf_text args n closure in
    let old : Text = text_or_empty (read_to_string conf fs) in
    let whole : s ++ drop (length s) old ≡ s =
      ap (λ x. s ++ x) (drop-nil (length s) old short) ∙ append-nil s in
    let held : lookup conf fs' ≡ some (file s) =
      lookup-write conf (s ++ drop (length s) old) fs h conf
      ∙ ap (λ b. if b then some (file (s ++ drop (length s) old)) else lookup conf fs)
          ((equal_path_iff conf conf).1 refl)
      ∙ ap (λ x. some (file x)) whole in
    rw (held, read_to_string) (ap some (parse-loader_conf_text args n closure fits))

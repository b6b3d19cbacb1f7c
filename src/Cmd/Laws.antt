-- ===== src/Cmd/Laws.antt =====
-- Which command lines are read as which commands.
use tinyboot.Prelude.{ℕ, ◌≤◌, List, [], ◌∷◌, Option, none, some, ◌≡◌, refl, All, ◌∙◌, ap}
use tinyboot.Result.{ok}
use tinyboot.Text.{Text, codes, equal, join, is_whitespace}
use tinyboot.Text.Decimal.{u8_max, u64_max, to_string, from_str_radix-to_string}
use tinyboot.Text.Words.{to_string-IsWord, IsWord, is_word, literal, split_whitespace-join}
use tinyboot.BootLoader.{disk, show_loader_type, loader_type_from_str}
use tinyboot.Cmd.{
  Command, loader, help, list, boot, reboot, poweroff, dmesg, rescan, shell, parse_input,
  parse_words, parse_command, parse_boot, parse_dmesg, parse_loader, number_of,
}

abbrev pub optional : Option ℕ → List Text
optional none = []
optional (some n) = to_string n ∷ []

-- The words of a command, as a user types it.
abbrev pub words_of : Command → List Text
words_of (loader none) = codes "loader" ∷ []
words_of (loader (some t)) = codes "loader" ∷ show_loader_type t ∷ []
words_of (help none) = codes "help" ∷ []
words_of (help (some topic)) = codes "help" ∷ topic ∷ []
words_of list = codes "list" ∷ []
words_of (boot none entry) = codes "boot" ∷ []
words_of (boot (some dev) entry) = codes "boot" ∷ to_string dev ∷ optional entry
words_of reboot = codes "reboot" ∷ []
words_of poweroff = codes "poweroff" ∷ []
words_of (dmesg level) = codes "dmesg" ∷ to_string level ∷ []
words_of rescan = codes "rescan" ∷ []
words_of shell = codes "shell" ∷ []

-- A command that can be typed: its numbers fit, an entry is given with its device only, and a topic
-- is a word.
abbrev IsTypable : Command → Type 0
IsTypable (help (some topic)) = IsWord is_whitespace topic
IsTypable (boot none (some entry)) = ⊥
IsTypable (boot none none) = Unit
IsTypable (boot (some dev) none) = dev ≤ u64_max
IsTypable (boot (some dev) (some entry)) = (dev ≤ u64_max) × (entry ≤ u64_max)
IsTypable (dmesg level) = level ≤ u8_max
IsTypable _ = Unit

number_of-to_string : (max n : ℕ) → n ≤ max → number_of max (some (to_string n)) ≡ ok (some n)
unfolding number_of
number_of-to_string max n h = rw (from_str_radix-to_string max n h)

parse_words-words_of :
    (input : Text) (c : Command) → IsTypable c → parse_words input (words_of c) ≡ ok (some c)
unfolding parse_words parse_command equal parse_loader loader_type_from_str show_loader_type
    parse_boot parse_dmesg
parse_words-words_of input (loader none) h = refl
parse_words-words_of input (loader (some disk)) h = refl
parse_words-words_of input (help none) h = refl
parse_words-words_of input (help (some topic)) h = refl
parse_words-words_of input list h = refl
parse_words-words_of input (boot none none) h = unfold number_of in refl
parse_words-words_of input (boot none (some entry)) h = absurd h
parse_words-words_of input (boot (some dev) none) h =
    rw (number_of-to_string u64_max dev h) (unfold number_of in refl)
parse_words-words_of input (boot (some dev) (some entry)) h =
    rw (number_of-to_string u64_max dev h.0, number_of-to_string u64_max entry h.1)
parse_words-words_of input reboot h = refl
parse_words-words_of input poweroff h = refl
parse_words-words_of input (dmesg level) h = rw (number_of-to_string u8_max level h)
parse_words-words_of input rescan h = refl
parse_words-words_of input shell h = refl

words_of-IsWord : (c : Command) → IsTypable c → All (IsWord is_whitespace) (words_of c)
unfolding is_word is_whitespace show_loader_type
words_of-IsWord (loader none) h = (literal (codes "loader") refl, tt)
words_of-IsWord (loader (some disk)) h =
    (literal (codes "loader") refl, (literal (codes "disk") refl, tt))
words_of-IsWord (help none) h = (literal (codes "help") refl, tt)
words_of-IsWord (help (some topic)) h = (literal (codes "help") refl, (h, tt))
words_of-IsWord list h = (literal (codes "list") refl, tt)
words_of-IsWord (boot none none) h = (literal (codes "boot") refl, tt)
words_of-IsWord (boot none (some entry)) h = absurd h
words_of-IsWord (boot (some dev) none) h = (literal (codes "boot") refl, (to_string-IsWord dev, tt))
words_of-IsWord (boot (some dev) (some entry)) h =
    (literal (codes "boot") refl, (to_string-IsWord dev, (to_string-IsWord entry, tt)))
words_of-IsWord reboot h = (literal (codes "reboot") refl, tt)
words_of-IsWord poweroff h = (literal (codes "poweroff") refl, tt)
words_of-IsWord (dmesg level) h = (literal (codes "dmesg") refl, (to_string-IsWord level, tt))
words_of-IsWord rescan h = (literal (codes "rescan") refl, tt)
words_of-IsWord shell h = (literal (codes "shell") refl, tt)

-- Every command that can be typed is read from its words, with one space between them.
pub parse_input-join :
    (c : Command) → IsTypable c → parse_input (join (b' ' ∷ []) (words_of c)) ≡ ok (some c)
unfolding parse_input
parse_input-join c h =
    ap (parse_words (join (b' ' ∷ []) (words_of c)))
      (split_whitespace-join (words_of c) (words_of-IsWord c h))
    ∙ parse_words-words_of _ c h

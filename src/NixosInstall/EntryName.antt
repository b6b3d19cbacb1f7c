-- ===== src/NixosInstall/EntryName.antt =====
-- The file name that the installer gives an entry.
use tinyboot.Prelude.{
  ℕ, ◌≤◌, Bool, false, ◌==◌, arith, ◌++◌, Option, none, some, ◌≡◌, refl, All-append,
}
use tinyboot.Result.{ok}
use tinyboot.Text.{Text, codes, equal, Lacks}
use tinyboot.Text.Decimal.{u32_max, to_string, to_string-IsDigit, IsDigit-Lacks}
use tinyboot.FilePath.Laws.{IsFileName}
use tinyboot.Bls.{parse_entry_filename, is_plus}
use tinyboot.BootLoader.Entry.{counted_filename}
use tinyboot.BootLoader.Entry.Count.{parse-counted_filename}
use tinyboot.NixosInstall.{or_default, name_suffix, entry_filename}

-- The name of an entry.
abbrev pub base_name : ℕ → Option Text → Text
base_name n specialisation =
    codes "nixos-generation-" ++ (to_string n ++ or_default name_suffix specialisation)

abbrev pub is_slash : ℕ → Bool
is_slash c = c == b'/'

to_string-Lacks-slash : (n : ℕ) → Lacks is_slash (to_string n)
to_string-Lacks-slash n =
    IsDigit-Lacks is_slash (to_string n) (λ c h. ground arith) (to_string-IsDigit n)

to_string-Lacks-plus : (n : ℕ) → Lacks is_plus (to_string n)
to_string-Lacks-plus n =
    IsDigit-Lacks is_plus (to_string n) (λ c h. ground arith) (to_string-IsDigit n)

base_name-Lacks :
    (p : ℕ → Bool) (n : ℕ) (specialisation : Option Text)
    → Lacks p (codes "nixos-generation-")
    → Lacks p (to_string n)
    → Lacks p (or_default name_suffix specialisation)
    → Lacks p (base_name n specialisation)
base_name-Lacks p n specialisation h k s =
    All-append (λ c. p c ≡ false) (codes "nixos-generation-") _ h
      (All-append (λ c. p c ≡ false) (to_string n) (or_default name_suffix specialisation) k s)

pub entry_filename-IsFileName :
    (n max : ℕ) (specialisation : Option Text)
    → Lacks is_slash (or_default name_suffix specialisation)
    → IsFileName (entry_filename n specialisation max)
unfolding entry_filename equal
entry_filename-IsFileName n max specialisation s = record {
  ne_nil = refl;
  ne_dot = refl;
  ne_dots = refl;
  no_slash =
      All-append (λ c. is_slash c ≡ false) (base_name n specialisation) _
        (base_name-Lacks is_slash n specialisation (ground arith) (to_string-Lacks-slash n) s)
        (
          refl,
          All-append (λ c. is_slash c ≡ false) (to_string max) (codes ".conf")
              (to_string-Lacks-slash max) (ground arith),
        );
}

pub entry_filename-counted :
    (n max : ℕ) (specialisation : Option Text)
    → Lacks is_plus (or_default name_suffix specialisation)
    → max ≤ u32_max
    → parse_entry_filename (entry_filename n specialisation max)
      ≡ ok (base_name n specialisation, some max, none)
unfolding entry_filename counted_filename
entry_filename-counted n max specialisation plus fits =
    parse-counted_filename (base_name n specialisation) max none
      (base_name-Lacks is_plus n specialisation (ground arith) (to_string-Lacks-plus n) plus) fits
      tt

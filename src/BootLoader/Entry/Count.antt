-- ===== src/BootLoader/Entry/Count.antt =====
-- The boot count: what the renamed file says, and how long an entry stays bootable.
use mathlib.Core.Option
use tinyboot.Prelude.{
  ℕ, ◌-◌, ◌≤◌, ◌∷◌, ◌++◌, append_assoc, Option, none, some, ◌≡◌, refl, arith, sym, ap, ◌∙◌, ◌==◌,
  ◌+◌, if◌then◌else◌,
}
use tinyboot.Result.{ok}
use tinyboot.Text.{Text, Lacks}
use tinyboot.Text.Decimal.{
  from_str_radix-le, u32_max, to_string, from_str_radix-to_string, to_string-IsDigit, IsDigit-Lacks,
}
use tinyboot.Bls.{is_plus, is_dash, parse_entry_filename}
use tinyboot.Bls.Named.{Named, plain, counted, counted_twice, parse_entry_filename_iff, conf}
use tinyboot.BootLoader.Entry.{count_down, count_up, counted_filename, next_filename}

to_string-no_dash : (n : ℕ) → Lacks is_dash (to_string n)
to_string-no_dash n =
    IsDigit-Lacks is_dash (to_string n) (λ c h. ground arith) (to_string-IsDigit n)

abbrev pub FitsOption : Option ℕ → Type 0
FitsOption none = Unit
FitsOption (some n) = n ≤ u32_max

Named-fits :
    {stem name : Text} {left tries : Option ℕ}
    → Named stem (name, left, tries)
    → Lacks is_plus name × FitsOption left × FitsOption tries
Named-fits (plain free) = (free, tt, tt)
Named-fits (counted s e free _ r) = (free, from_str_radix-le u32_max s _ r, tt)
Named-fits (counted_twice s t e free _ r q) =
    (free, from_str_radix-le u32_max s _ r, from_str_radix-le u32_max t _ q)

-- A file name with counters is read back, if the name has no `+` and the counters fit.
pub parse-counted_filename :
    (name : Text) (left : ℕ) (tries : Option ℕ)
    → Lacks is_plus name
    → left ≤ u32_max
    → FitsOption tries
    → parse_entry_filename (counted_filename name left tries) ≡ ok (name, some left, tries)
unfolding counted_filename
parse-counted_filename name left none free h k = (parse_entry_filename_iff _ _).1 (
  name ++ b'+' ∷ to_string left,
  sym (append_assoc name (b'+' ∷ to_string left) conf),
  counted (to_string left) refl free (to_string-no_dash left)
      (from_str_radix-to_string u32_max left h),
)
parse-counted_filename name left (some tries) free h k = (parse_entry_filename_iff _ _).1 (
  name ++ b'+' ∷ (to_string left ++ b'-' ∷ to_string tries),
  simp append_assoc,
  counted_twice (to_string left) (to_string tries) refl free (to_string-no_dash left)
      (from_str_radix-to_string u32_max left h) (from_str_radix-to_string u32_max tries k),
)

-- What an accepted file name says: its name has no `+`, and its counters are numbers of 32 bits.
pub accepted_fits :
    (f name : Text) (left tries : Option ℕ)
    → parse_entry_filename f ≡ ok (name, left, tries)
    → Lacks is_plus name × FitsOption left × FitsOption tries
accepted_fits f name left tries h = Named-fits ((parse_entry_filename_iff f _).0 h).2

count_up-le : (n : ℕ) → n ≤ u32_max → count_up n ≤ u32_max
unfolding count_up
count_up-le n h = ground arith

-- One try more, as far as 32 bits go.
abbrev pub one_more : Option ℕ → Option ℕ
one_more none = none
one_more (some n) = some (if n == u32_max then u32_max else n + 1)

counts_up-one_more :
    (tries : Option ℕ) → FitsOption tries → Option.map count_up tries ≡ one_more tries
unfolding count_up
counts_up-one_more none h = refl
counts_up-one_more (some n) h = ground arith

counts_up-Fits : (tries : Option ℕ) → FitsOption tries → FitsOption (Option.map count_up tries)
counts_up-Fits none h = tt
counts_up-Fits (some n) h = count_up-le n h

-- After a boot the file name of an entry with tries left says one try less, but not less than 0,
-- and where it counts the tries done, one more, up to the largest 32-bit number. The name is kept.
pub parse-next_filename :
    (f name : Text) (left : ℕ) (tries : Option ℕ)
    → parse_entry_filename f ≡ ok (name, some left, tries)
    → parse_entry_filename (next_filename name left tries)
      ≡ ok (name, some (left - 1), one_more tries)
unfolding next_filename count_down
parse-next_filename f name left tries h =
    let (free, fits, fits') = accepted_fits f name (some left) tries h in
    parse-counted_filename name (left - 1) (Option.map count_up tries) free (omega arith)
      (counts_up-Fits tries fits')
    ∙ ap (λ x. ok (name, some (left - 1), x)) (counts_up-one_more tries fits')

-- ===== src/Bls/Named.antt =====
-- Which file names are accepted, and what they mean: the convention stated with no parser.
use tinyboot.Prelude.{
  ℕ, none, some, ◌∷◌, ◌++◌, ◌≡◌, refl, arith, ◌↔◌, inl, inr, Option-cases, ap, ◌∙◌,
}
use mathlib.Core.Path.{subst}
use tinyboot.Result.{ok, ok-injective}
use tinyboot.Text.{Text, codes, strip_suffix, split_once, Lacks}
use tinyboot.Text.Cut.{
  strip_suffix-append, strip_suffix_sound, split_once-append, split_once-Lacks, split_once-none,
  split_once_char,
}
use tinyboot.Text.Decimal.{u32_max, from_str_radix}
use tinyboot.Bls.{
  BlsEntryMetadata, is_plus, is_dash, parse_tries, parse_counters, parse_stem, parse_entry_filename,
}

abbrev pub conf : Text
conf = codes ".conf"

-- A number as `u32::from_str_radix` reads it.
abbrev Reads : Text → ℕ → Type 0
Reads s n = from_str_radix u32_max s ≡ some n

-- The stem of a file name has a name, and the counters that it has are numbers.
pub data Named (stem : Text) : BlsEntryMetadata → Type 0 where
  plain : Lacks is_plus stem → Named stem (stem, none, none)
  counted :
      {name : Text} {a : ℕ} (s : Text)
      → stem ≡ name ++ b'+' ∷ s
      → Lacks is_plus name
      → Lacks is_dash s
      → Reads s a
      → Named stem (name, some a, none)
  counted_twice :
      {name : Text} {a b : ℕ} (s t : Text)
      → stem ≡ name ++ b'+' ∷ (s ++ b'-' ∷ t)
      → Lacks is_plus name
      → Lacks is_dash s
      → Reads s a
      → Reads t b
      → Named stem (name, some a, some b)

parse_tries-Reads : (s : Text) (n : ℕ) → parse_tries s ≡ ok n → Reads s n
unfolding parse_tries
parse_tries-Reads s n h = ground arith

parse_counters-Named :
    (stem name info : Text) (m : BlsEntryMetadata)
    → stem ≡ name ++ b'+' ∷ info
    → Lacks is_plus name
    → parse_counters name info (split_once is_dash info) ≡ ok m
    → Named stem m
unfolding parse_counters
parse_counters-Named stem name info m e free h = elim (Option-cases (split_once is_dash info)) [
  | inl no_dash ↦ elim (Option-cases (from_str_radix u32_max info)) [
    | inl bad ↦ cc (rw (no_dash, bad) at h)
    | inr (a, good) ↦
        subst (Named stem) (ok-injective (rw (no_dash, good) at h))
          (counted info e free (split_once-none is_dash info no_dash) good)
  ]
  | inr ((s, t), dash) ↦ elim (Option-cases (from_str_radix u32_max s)) [
    | inl bad ↦ cc (rw (dash, bad) at h)
    | inr (a, good) ↦ elim (Option-cases (from_str_radix u32_max t)) [
      | inl bad ↦ cc (rw (dash, good, bad) at h)
      | inr (b, good') ↦
          let (cut, dash_free) = split_once_char b'-' info s t dash in
          subst (Named stem) (ok-injective (rw (dash, good, good') at h)) (
            counted_twice s t (e ∙ ap (λ (x : Text). name ++ b'+' ∷ x) cut) free dash_free good
              good')
    ]
  ]
]

parse_stem-Named :
    (stem : Text) (m : BlsEntryMetadata)
    → parse_stem stem (split_once is_plus stem) ≡ ok m
    → Named stem m
unfolding parse_stem
parse_stem-Named stem m h = elim (Option-cases (split_once is_plus stem)) [
  | inl no_plus ↦
      subst (Named stem) (ok-injective (rw no_plus at h))
        (plain (split_once-none is_plus stem no_plus))
  | inr ((name, info), plus) ↦
      let (cut, free) = split_once_char b'+' stem name info plus in
      parse_counters-Named stem name info m cut free (rw plus at h)
]

Named-parse_stem :
    {stem : Text} {m : BlsEntryMetadata}
    → Named stem m
    → parse_stem stem (split_once is_plus stem) ≡ ok m
unfolding parse_stem
Named-parse_stem {stem} (plain free) = rw (split_once-Lacks is_plus stem free)
Named-parse_stem (counted {name} {a} s e free dash_free r) =
    rw (e, split_once-append is_plus name b'+' s free refl, split_once-Lacks is_dash s dash_free, r)
Named-parse_stem (counted_twice {name} s t e free dash_free r q) = rw (
  e,
  split_once-append is_plus name b'+' _ free refl,
  split_once-append is_dash s b'-' t dash_free refl,
  r,
  q,
)

-- A file name is accepted, with this name and these counters, exactly when it is a stem of the
-- convention followed by `.conf`.
pub parse_entry_filename_iff :
    (f : Text) (m : BlsEntryMetadata)
    → (parse_entry_filename f ≡ ok m) ↔ ((stem : Text) × (f ≡ stem ++ conf) × Named stem m)
unfolding parse_entry_filename
parse_entry_filename_iff f m = (
  (λ h. elim (Option-cases (strip_suffix conf f)) [
    | inl bad ↦ cc (rw bad at h)
    | inr (stem, e) ↦ (stem, strip_suffix_sound conf f stem e, parse_stem-Named stem m (rw e at h))
  ]),
  (λ h. rw (h.1, strip_suffix-append h.0 conf) (Named-parse_stem h.2)),
)

-- ===== src/Text/Decimal.antt =====
-- Decimal numbers: `from_str_radix(_, 10)` of the unsigned integers, and their `Display`.
use tinyboot.Prelude.{
  ℕ, zero, suc, ◌+◌, ◌-◌, ◌*◌, ◌/◌, ◌%◌, ◌^◌, ◌≤◌, ◌<◌, Bool, true, false, [], ◌∷◌, Option, none,
  some, ◌≡◌, ◌≢◌, refl, arith, ltb, ◌==◌, within, if◌then◌else◌, All,
}
use tinyboot.Text.{Text, codes, Lacks}

abbrev pub u8_max : ℕ
u8_max = 2 ^ 8 - 1

abbrev pub u32_max : ℕ
u32_max = 2 ^ 32 - 1

abbrev pub u64_max : ℕ
u64_max = 2 ^ 64 - 1

-- `checked_mul` by ten and `checked_add` of a digit, from the first character on.
scan : ℕ → Text → ℕ → Option ℕ
scan max [] n = some n
scan max (c ∷ s) n =
    let rest = scan max s (n * 10 + (c - b'0')) in
    if within b'0' b'9' c
    then if ltb max (n * 10) then none else if ltb max (n * 10 + (c - b'0')) then none else rest
    else none

-- An empty text, a sign alone and a `-` are refused; one leading `+` is taken off.
unfoldable pub from_str_radix : ℕ → Text → Option ℕ
unfolding scan
from_str_radix max [] = none
from_str_radix max (c ∷ []) = scan max (c ∷ []) 0
from_str_radix max (c ∷ d ∷ s) = if c == b'+' then scan max (d ∷ s) 0 else scan max (c ∷ d ∷ s) 0

digits_for : ℕ → ℕ → Text → Text
digits_for zero n out = out
digits_for (suc fuel) n out = elim (ltb n 10) [
  | true ↦ (b'0' + n) ∷ out
  | false ↦ digits_for fuel (n / 10) ((b'0' + n % 10) ∷ out)
]

-- Each round divides by ten, so `n + 1` rounds are enough.
unfoldable pub to_string : ℕ → Text
unfolding digits_for
to_string n = digits_for (suc n) n []

scan-digits_for :
    (max fuel n : ℕ) (out : Text)
    → n < fuel
    → n ≤ max
    → scan max (digits_for fuel n out) 0 ≡ scan max out n
unfolding scan digits_for
scan-digits_for max zero n out h fits = absurd (omega arith)
scan-digits_for max (suc fuel) n out h fits =
    ground (arith, scan-digits_for max fuel (n / 10) ((b'0' + n % 10) ∷ out))

abbrev pub IsDigit : ℕ → Type 0
IsDigit c = (b'0' ≤ c) × (c ≤ b'9')

digits_for-IsDigit :
    (fuel n : ℕ) (out : Text) → All IsDigit out → All IsDigit (digits_for fuel n out)
unfolding digits_for
digits_for-IsDigit zero n out h = h
digits_for-IsDigit (suc fuel) n out h =
    ground (arith, digits_for-IsDigit fuel (n / 10) ((b'0' + n % 10) ∷ out))

pub to_string-IsDigit : (n : ℕ) → All IsDigit (to_string n)
unfolding to_string
to_string-IsDigit n = digits_for-IsDigit (suc n) n [] tt

digits_for-ne-nil : (fuel n : ℕ) (out : Text) → out ≢ [] → digits_for fuel n out ≢ []
unfolding digits_for
digits_for-ne-nil zero n out h = h
digits_for-ne-nil (suc fuel) n out h =
    ground (arith, digits_for-ne-nil fuel (n / 10) ((b'0' + n % 10) ∷ out))

pub to_string-ne-nil : (n : ℕ) → to_string n ≢ []
unfolding to_string digits_for
to_string-ne-nil n = ground (arith, digits_for-ne-nil n (n / 10) ((b'0' + n % 10) ∷ []))

from_str_radix-scan :
    (max : ℕ) (s : Text) → s ≢ [] → All IsDigit s → from_str_radix max s ≡ scan max s 0
unfolding from_str_radix
from_str_radix-scan max [] h _ = absurd (h refl)
from_str_radix-scan max (c ∷ []) h _ = refl
from_str_radix-scan max (c ∷ d ∷ s) h k = ground arith

-- A printed number is read back.
pub from_str_radix-to_string : (max n : ℕ) → n ≤ max → from_str_radix max (to_string n) ≡ some n
unfolding to_string scan
from_str_radix-to_string max n h =
    rw (from_str_radix-scan max (to_string n) (to_string-ne-nil n) (to_string-IsDigit n))
      (scan-digits_for max (suc n) n [] (omega arith) h)

scan-le : (max : ℕ) (s : Text) (n r : ℕ) → n ≤ max → scan max s n ≡ some r → r ≤ max
unfolding scan
scan-le max [] n r h e = ground arith
scan-le max (c ∷ s) n r h e = ground (arith, scan-le max s (n * 10 + (c - b'0')) r)

-- What is read fits the type.
pub from_str_radix-le : (max : ℕ) (s : Text) (r : ℕ) → from_str_radix max s ≡ some r → r ≤ max
unfolding from_str_radix
from_str_radix-le max [] r e = cc
from_str_radix-le max (c ∷ []) r e = scan-le max (c ∷ []) 0 r (omega arith) e
from_str_radix-le max (c ∷ d ∷ s) r e =
    ground (arith, scan-le max (d ∷ s) 0 r, scan-le max (c ∷ d ∷ s) 0 r)

pub IsDigit-Lacks :
    (p : ℕ → Bool) (s : Text) → ((c : ℕ) → IsDigit c → p c ≡ false) → All IsDigit s → Lacks p s
IsDigit-Lacks p [] h k = tt
IsDigit-Lacks p (c ∷ s) h k = (h c k.0, IsDigit-Lacks p s h k.1)

to_string_max : to_string u32_max ≡ codes "4294967295"
unfolding to_string
to_string_max = refl

from_str_radix_samples :
    (from_str_radix u32_max (codes "+007") ≡ some 7)
    × (from_str_radix u32_max (codes "4294967296") ≡ none)
    × (from_str_radix u32_max (codes "-1") ≡ none)
    × (from_str_radix u32_max (codes "+") ≡ none)
unfolding from_str_radix
from_str_radix_samples = (refl, refl, refl, refl)

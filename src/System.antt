-- ===== src/System.antt =====
-- tboot/src/system.rs: the lines of the kernel log that `dmesg` shows, and the setup of the system.
pub mod Log
pub mod Setup
pub mod Visible
mod Tests
use tinyboot.Prelude.{
  ℕ, zero, suc, ◌+◌, ◌-◌, ◌%◌, Bool, List, [], ◌∷◌, ◌++◌, Option, none, some, if◌then◌else◌, ltb,
  leb, length,
}
use tinyboot.Result.{Result, ok, err}
use tinyboot.Text.{Text, split}

-- A result of `kernel_logs`, or its panic.
pub data KernelLogs {ℓ} (E : Type ℓ) : Type ℓ where
  logs : Text → KernelLogs E
  failed : E → KernelLogs E
  panicked : KernelLogs E

abbrev pub newline : ℕ
newline = 10

abbrev pub ascii_integer_start : ℕ
ascii_integer_start = 48

unfoldable pub max_level : ℕ → ℕ
max_level level = if ltb 7 level then 7 else level

-- The subtraction of a `u8`, which wraps around in the release profile.
unfoldable pub line_level : ℕ → ℕ
line_level byte = (byte + 256 - ascii_integer_start) % 256

-- The body of `filter_map`: only a line of more than three bytes is looked into.
unfoldable pub filter_line : ℕ → Text → Option Text
filter_line max [] = none
filter_line max (b0 ∷ []) = none
filter_line max (b0 ∷ b1 ∷ []) = none
filter_line max (b0 ∷ b1 ∷ b2 ∷ []) = none
filter_line max (b0 ∷ b1 ∷ b2 ∷ b3 ∷ line) =
    if leb (line_level b1) max then some (b3 ∷ line) else none

-- `filter_map` with the fold behind it.
unfoldable pub fold_lines : ℕ → List Text → Text → Text
fold_lines max [] acc = acc
fold_lines max (line ∷ lines) acc = elim (filter_line max line) [
  | none ↦ fold_lines max lines acc
  | some kept ↦ fold_lines max lines ((acc ++ kept) ++ newline ∷ [])
]

-- `Vec::remove`, which panics where there is no such index.
unfoldable pub remove : ℕ → Text → Option Text
remove i [] = none
remove zero (b ∷ bytes) = some bytes
remove (suc i) (b ∷ bytes) = elim (remove i bytes) [ none ↦ none | some rest ↦ some (b ∷ rest) ]

-- The rest, behind the system call. Of no bytes `len() - 1` is no index either, so that it panics
-- as `remove` does here.
module _ {ℓ} {E : Type ℓ} (is_utf8 : Text → Bool) where
  abbrev pub text_of : Option Text → KernelLogs E
  text_of none = panicked
  text_of (some bytes) = if is_utf8 bytes then logs bytes else panicked

  unfoldable pub kernel_logs : Result Text E → ℕ → KernelLogs E
  kernel_logs (err e) level = failed e
  kernel_logs (ok bytes) level =
      let filtered = fold_lines (max_level level) (split newline bytes) [] in
      text_of (remove (length filtered - 1) filtered)

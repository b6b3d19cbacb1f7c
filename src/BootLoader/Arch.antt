-- ===== src/BootLoader/Arch.antt =====
-- `EfiArch` of tboot-loader/src/boot_loader/disk.rs.
use tinyboot.Prelude.{
  ℕ, Bool, false, map, ◌+◌, ◌==◌, within, if◌then◌else◌, ◌≡◌, refl, arith, ◌≢◌, ◌||◌, [], ◌∷◌,
}
use tinyboot.Result.{Result, ok, err}
use tinyboot.Text.{Text, codes, equal}

pub data EfiArch : Type 0 where
  ia32 x64 arm aa64 riscv32 riscv64 loong_arch32 loong_arch64 : EfiArch

-- `std::env::consts::ARCH` is the argument.
unfoldable pub is_running_arch : EfiArch → Text → Bool
unfolding equal
is_running_arch ia32 arch = false
is_running_arch x64 arch = equal arch (codes "x86") || equal arch (codes "x86_64")
is_running_arch arm arch = equal arch (codes "arm")
is_running_arch aa64 arch = equal arch (codes "aarch64")
is_running_arch riscv32 arch = equal arch (codes "riscv32")
is_running_arch riscv64 arch = equal arch (codes "riscv64")
is_running_arch loong_arch32 arch = equal arch (codes "loongarch32")
is_running_arch loong_arch64 arch = equal arch (codes "LoongArch64")

-- `to_lowercase` of a character. Those above ASCII are kept, but for the Kelvin sign, the only one
-- whose lower case is ASCII; no name of an architecture has a character above ASCII.
lower : ℕ → ℕ
lower c = if within b'A' b'Z' c then c + 32 else if c == 0x212a then b'k' else c

to_lowercase : Text → Text
unfolding lower
to_lowercase = map lower

pub data ArchError : Type 0 where
  unknown_efi_arch : ArchError

arch_of : Text → Result EfiArch ArchError
arch_of s =
    if equal s (codes "ia32")
    then ok ia32
    else if equal s (codes "x64")
    then ok x64
    else if equal s (codes "arm")
    then ok arm
    else if equal s (codes "aa64")
    then ok aa64
    else if equal s (codes "riscv32")
    then ok riscv32
    else if equal s (codes "riscv64")
    then ok riscv64
    else if equal s (codes "loongarch32")
    then ok loong_arch32
    else if equal s (codes "LoongArch64")
    then ok loong_arch64
    else err unknown_efi_arch

-- `EfiArch::from_str`
pub arch_from_str : Text → Result EfiArch ArchError
unfolding arch_of
arch_from_str s = arch_of (to_lowercase s)

-- A lower-case text is the name of no architecture with capitals.
lower-ne-upper : (c : ℕ) → lower c ≢ b'L'
unfolding lower
lower-ne-upper c = ground arith

to_lowercase-ne : (s : Text) → equal (to_lowercase s) (codes "LoongArch64") ≡ false
unfolding to_lowercase equal
to_lowercase-ne [] = refl
to_lowercase-ne (c ∷ s) = ground (arith, lower-ne-upper c)

-- No text is read as `LoongArch64`: the text is put in lower case first, and the name that it is
-- compared with has capitals.
arch_from_str-ne-loong_arch64 : (s : Text) → arch_from_str s ≢ ok loong_arch64
unfolding arch_from_str
arch_from_str-ne-loong_arch64 s = ground (arith, to_lowercase-ne s)

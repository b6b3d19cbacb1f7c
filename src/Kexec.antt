-- ===== src/Kexec.antt =====
-- tboot-loader/src/kexec.rs: the kernel and the initrd of an entry are loaded, to be started.
mod Loaded
mod Tests
use tinyboot.Prelude.{
  ℕ, Bool, true, false, ◌||◌, ◌+◌, ◌-◌, ◌/◌, ◌%◌, ◌==◌, ltb, List, [], ◌∷◌, ◌++◌, Option, none,
  some, if◌then◌else◌, length,
}
use tinyboot.Result.{Result, ok, err, ◌>>=◌}
use tinyboot.Text.{Text, codes, equal}
use tinyboot.FilePath.{FilePath}
use tinyboot.Fs.{IoError, not_found, Fs, lookup}
use tinyboot.BootLoader.{LinuxBootParts}

pub data KexecError : Type 0 where
  io : IoError → KexecError
  nul_in_cmdline : KexecError
  os : ℕ → KexecError

-- The arguments of the system call: a descriptor is the file for which it is open, and a descriptor
-- that is 0 is `none`.
pub record KexecFileLoad : Type 0 where
  pub kernel_fd : FilePath
  pub initrd_fd : Option FilePath
  pub cmdline_len : ℕ
  pub cmdline : List ℕ
  pub flags : ℕ

-- `File::open`
unfoldable pub open_file : FilePath → Fs → Result FilePath KexecError
open_file p fs = elim (lookup p fs) [ none ↦ err (io not_found) | some n ↦ ok p ]

abbrev continuation : ℕ → ℕ
continuation c = 0x80 + c % 0x40

-- The bytes of a character in UTF-8.
unfoldable pub encode : ℕ → List ℕ
encode c =
    if ltb c 0x80
    then c ∷ []
    else if ltb c 0x800
    then (0xc0 + c / 0x40) ∷ continuation c ∷ []
    else if ltb c 0x10000
    then (0xe0 + c / 0x1000) ∷ continuation (c / 0x40) ∷ continuation c ∷ []
    else (0xf0 + c / 0x40000)
      ∷ continuation (c / 0x1000)
      ∷ continuation (c / 0x40)
      ∷ continuation c
      ∷ []

unfoldable pub bytes : Text → List ℕ
bytes [] = []
bytes (c ∷ s) = encode c ++ bytes s

abbrev pub has_nul : List ℕ → Bool
has_nul [] = false
has_nul (c ∷ s) = c == 0 || has_nul s

-- `CString::new`, with the zero at its end.
unfoldable pub c_string : Text → Result (List ℕ) KexecError
c_string s = if has_nul (bytes s) then err nul_in_cmdline else ok (bytes s ++ 0 ∷ [])

abbrev pub unwrap_or_default : Option Text → Text
unwrap_or_default none = []
unwrap_or_default (some s) = s

abbrev pub no_initramfs : ℕ
no_initramfs = 4

-- `-4096isize as usize`
abbrev pub last_result : ℕ
last_result = 0xfffffffffffff000

-- The loop that reads /sys/kernel/kexec_loaded, over what it reads; `none` while it waits.
unfoldable pub wait_loaded : List (Result Text IoError) → Option (Result (Unit {0}) KexecError)
wait_loaded [] = none
wait_loaded (err e ∷ rs) = some (err (io e))
wait_loaded (ok s ∷ rs) =
    let rest = wait_loaded rs in if equal s (codes "1\n") then some (ok tt) else rest

unfoldable pub initrd_call :
    Option FilePath → FilePath → List ℕ → Fs → Result KexecFileLoad KexecError
initrd_call none kernel cmdline fs = ok (record {
  kernel_fd = kernel;
  initrd_fd = none;
  cmdline_len = length cmdline;
  cmdline = cmdline;
  flags = no_initramfs;
})
initrd_call (some initrd) kernel cmdline fs = do
  initrd_file ← open_file initrd fs
  ok (record {
    kernel_fd = kernel;
    initrd_fd = some initrd_file;
    cmdline_len = length cmdline;
    cmdline = cmdline;
    flags = 0;
  })

-- What is handed to the system call, or why there is no call.
unfoldable pub load_call : LinuxBootParts → Fs → Result KexecFileLoad KexecError
load_call boot_entry fs = do
  kernel ← open_file boot_entry.linux fs
  cmdline ← c_string (unwrap_or_default boot_entry.cmdline)
  initrd_call boot_entry.initrd kernel cmdline fs

abbrev pub checked : Result ℕ ℕ → Result (Unit {0}) KexecError
checked (err code) = err (os code)
checked (ok retval) =
    if ltb last_result retval then err (os (0x10000000000000000 - retval)) else ok tt

unfoldable pub after_call :
    Result ℕ ℕ → List (Result Text IoError) → Option (Result (Unit {0}) KexecError)
after_call result readings = elim (checked result) [
  | err e ↦ some (err e)
  | ok done ↦ wait_loaded readings
]

-- The system call is the argument.
unfoldable pub kexec_load :
    (KexecFileLoad → Result ℕ ℕ)
    → LinuxBootParts
    → Fs
    → List (Result Text IoError)
    → Option (Result (Unit {0}) KexecError)
kexec_load kexec_file_load boot_entry fs readings = elim (load_call boot_entry fs) [
  | err e ↦ some (err e)
  | ok call ↦ after_call (kexec_file_load call) readings
]

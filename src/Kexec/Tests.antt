-- ===== src/Kexec/Tests.antt =====
-- An entry that is loaded, and the ways in which it is not.
use tinyboot.Prelude.{ℕ, List, [], ◌∷◌, none, some, ◌≡◌, ◌↔◌, refl, if◌then◌else◌}
use tinyboot.Result.{Result, ok, err}
use tinyboot.Text.{Text, codes, equal}
use tinyboot.FilePath.{from_text, equal_path}
use tinyboot.Fs.{IoError, Fs, file, lookup}
use tinyboot.BootLoader.{LinuxBootParts}
use tinyboot.Kexec.{
  KexecFileLoad, os, encode, bytes, open_file, c_string, initrd_call, load_call, after_call,
  wait_loaded, kexec_load,
}
use tinyboot.Kexec.Loaded.{IsLoaded, kexec_load_iff}

abbrev parts : LinuxBootParts
unfolding from_text
parts = record {
  linux = from_text (codes "/boot/linux");
  initrd = some (from_text (codes "/boot/initrd"));
  cmdline = some (codes "quiet");
}

abbrev fs : Fs
unfolding from_text
fs =
    (from_text (codes "/boot/linux"), file (codes "kernel"))
    ∷ (from_text (codes "/boot/initrd"), file (codes "initrd"))
    ∷ []

-- A system call that wants a command line of six bytes, and fails without an initrd.
abbrev kexec_file_load : KexecFileLoad → Result ℕ ℕ
kexec_file_load call = if equal call.cmdline (codes "quiet\0") then ok 0 else err 22

readings : List (Result Text IoError)
readings = ok (codes "0\n") ∷ ok (codes "1\n") ∷ []

loaded : kexec_load kexec_file_load parts fs readings ≡ some (ok tt)
unfolding kexec_load load_call initrd_call open_file c_string bytes encode after_call wait_loaded
    readings lookup equal_path equal from_text
loaded = refl

waiting : kexec_load kexec_file_load parts fs [] ≡ none
unfolding kexec_load load_call initrd_call open_file c_string bytes encode after_call wait_loaded
    readings lookup equal_path equal from_text
waiting = refl

refused :
    kexec_load kexec_file_load (record parts { cmdline = none }) fs readings ≡ some (err (os 22))
unfolding kexec_load load_call initrd_call open_file c_string bytes encode after_call wait_loaded
    readings lookup equal_path equal from_text
refused = refl

encoded : bytes (codes "aé€😀") ≡ 97 ∷ 195 ∷ 169 ∷ 226 ∷ 130 ∷ 172 ∷ 240 ∷ 159 ∷ 152 ∷ 128 ∷ []
unfolding bytes encode
encoded = refl

kexec_load_iff_example :
    (kexec_load kexec_file_load parts fs readings ≡ some (ok tt))
    ↔ IsLoaded kexec_file_load parts fs readings
kexec_load_iff_example = kexec_load_iff kexec_file_load parts fs readings

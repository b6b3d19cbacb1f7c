-- ===== src/NixosInstall/Example.antt =====
-- A generation, and a tree in which it is installed.
use tinyboot.Prelude.{Bool, true, false, List, [], ◌∷◌, Option, none, some, ◌≡◌, refl}
use tinyboot.Text.{Text, codes}
use tinyboot.FilePath.{FilePath, from_text}
use tinyboot.Fs.{Fs, file, dir, entries_of}
use tinyboot.NixosInstall.{Args, Bootspec, Generation, Profile, entries_dir, main}

abbrev pub p : Text → FilePath
p s = from_text s

abbrev pub args : Args
unfolding from_text
args = record {
  efi_sys_mount_point = p (codes "/boot");
  max_tries = 3;
  timeout = 10;
  default_nixos_system_closure = p (codes "/nix/store/s1");
}

abbrev pub generation : Bootspec
unfolding from_text
generation = record {
  label = codes "24.05";
  kernel = p (codes "/nix/store/k1-linux/bzImage");
  kernel_params = codes "quiet" ∷ codes "loglevel=4" ∷ [];
  init = p (codes "/nix/store/s1/init");
  initrd = some (p (codes "/nix/store/i1-initrd/initrd"));
}

abbrev pub system_1 : Profile
system_1 = record {
  name = codes "system-1-link";
  is_symlink = true;
  closure = some (p (codes "/nix/store/s1"));
}

abbrev pub at_start : Fs
unfolding from_text
at_start =
    (p (codes "/boot"), dir)
    ∷ (p (codes "/nix/store/s1/boot.json"), file (codes "{}"))
    ∷ (p (codes "/nix/store/k1-linux/bzImage"), file (codes "kernel"))
    ∷ (p (codes "/nix/store/i1-initrd/initrd"), file (codes "initrd"))
    ∷ (p (codes "/etc/machine-id"), file (codes "0123\n"))
    ∷ []

abbrev pub sign : FilePath → Fs → Option Fs
sign path fs = some fs

-- A pattern that every entry fits.
abbrev pub glob : Text → Fs → Option (List FilePath)
glob pattern fs = some (entries_of (entries_dir args) fs)

abbrev pub from_json : Text → Option (Option Generation)
from_json s = some (some (record { bootspec = generation; specialisations = [] }))

abbrev pub run : Fs → Option Fs
run fs = main sign glob (codes "boot.json") from_json args (system_1 ∷ []) fs

abbrev pub or_empty : Option Fs → Fs
or_empty none = []
or_empty (some fs) = fs

abbrev pub once : Fs
once = or_empty (run at_start)

abbrev pub entry_1 : FilePath
unfolding from_text
entry_1 = p (codes "/boot/loader/entries/nixos-generation-1+3.conf")

abbrev pub returns : Option Fs → Bool
returns none = false
returns (some fs) = true

pub returns-some : (o : Option Fs) → returns o ≡ true → o ≡ some (or_empty o)
returns-some none h = cc
returns-some (some fs) h = refl

-- ===== src/BootLoader.antt =====
-- tboot-loader/src/boot_loader/: the types of mod.rs, the disk loader and the loader that drives it.
pub mod Arch
pub mod Conf
pub mod Disk
pub mod BlsBootLoader
pub mod Entry
pub mod Loader
mod Tests
use tinyboot.Prelude.{ℕ, Bool, List, Option, if◌then◌else◌}
use tinyboot.Result.{Result, ok, err}
use tinyboot.Text.{Text, codes, equal}
use tinyboot.FilePath.{FilePath}

pub data LoaderType : Type 0 where
  disk : LoaderType

unfoldable pub show_loader_type : LoaderType → Text
show_loader_type disk = codes "disk"

-- `LoaderType::from_str`; the error holds the text that is no loader.
unfoldable pub loader_type_from_str : Text → Result LoaderType Text
unfolding equal
loader_type_from_str s = if equal s (codes "disk") then ok disk else err s

pub record LinuxBootParts : Type 0 where
  pub linux : FilePath
  pub initrd : Option FilePath
  pub cmdline : Option Text

-- `E` is the type of the boxed entries, and the timeout is in seconds.
pub record BootDevice (E : Type 0) : Type 0 where
  pub name : Text
  pub entries : List E
  pub timeout : ℕ

-- The traits `BootLoader` and `BootEntry`. The state is that of the loader and of the machine that
-- it works on; `setup` says whether it succeeded. `fresh` is the constructor of the loader.
pub record Platform : Type 1 where
  pub State : Type 0
  pub Entry : Type 0
  pub fresh : State → State
  pub loader_type : State → LoaderType
  pub setup : State → Bool × State
  pub probe : State → List (BootDevice Entry) × State
  pub teardown : State → State
  pub is_default : Entry → Bool
  pub show : Entry → Text
  pub select : Entry → State → LinuxBootParts × State

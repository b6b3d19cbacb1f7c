-- ===== src/Keys.antt =====
-- tboot-loader/src/keys.rs: the key that verifies what is loaded.
mod Pubkey
mod Guarded
mod Tests
use tinyboot.Prelude.{ℕ, Bool, true, false, List, [], ◌∷◌, Option, none, some, ltb, if◌then◌else◌}
use tinyboot.Result.{Result, ok, err, to_option, ok_or}
use tinyboot.Text.{Text, codes}
use tinyboot.FilePath.{FilePath}
use tinyboot.Fs.{IoError, Fs, read_to_string, write}

-- The user keyring, or a keyring by its number.
pub data KeySerial : Type 0 where
  user_keyring : KeySerial
  serial : ℕ → KeySerial

-- The arguments of the system call add_key; the text of a key is its bytes.
pub record AddKey : Type 0 where
  pub key_type : Text
  pub description : Option Text
  pub payload : Option Text
  pub keyring : KeySerial

pub data KeyError : Type 0 where
  no_public_key : KeyError
  os : ℕ → KeyError
  out_of_range : KeyError
  io : IoError → KeyError

pub record Features : Type 0 where
  pub fw_cfg : Bool
  pub coreboot : Bool

abbrev pub i32_max : ℕ
i32_max = 0x7fffffff

abbrev pub fw_cfg_path : FilePath
fw_cfg_path = record {
  absolute = true;
  parts =
      codes "sys"
      ∷ codes "firmware"
      ∷ codes "qemu_fw_cfg"
      ∷ codes "by_name"
      ∷ codes "opt"
      ∷ codes "org.tboot"
      ∷ codes "pubkey"
      ∷ codes "raw"
      ∷ [];
}

abbrev pub vpd_path : FilePath
vpd_path = record {
  absolute = true;
  parts = codes "sys" ∷ codes "firmware" ∷ codes "vpd" ∷ codes "ro" ∷ codes "pubkey" ∷ [];
}

abbrev pub policy_conf : FilePath
policy_conf = record {
  absolute = true;
  parts = codes "etc" ∷ codes "ima" ∷ codes "policy.conf" ∷ [];
}

abbrev pub policy_path : FilePath
policy_path = record {
  absolute = true;
  parts = codes "sys" ∷ codes "kernel" ∷ codes "security" ∷ codes "ima" ∷ codes "policy" ∷ [];
}

abbrev pub fw_cfg_key : Bool → Fs → Option Text
fw_cfg_key false fs = none
fw_cfg_key true fs = to_option (read_to_string fw_cfg_path fs)

abbrev pub decoded : (Text → Option Text) → Result Text IoError → Option Text
decoded decode (err e) = none
decoded decode (ok s) = decode s

abbrev pub coreboot_key : (Text → Option Text) → Bool → Fs → Option Text
coreboot_key decode false fs = none
coreboot_key decode true fs = decoded decode (read_to_string vpd_path fs)

-- The first source that has a key. The crate base64 is a parameter.
unfoldable pub find_pubkey : (Text → Option Text) → Features → Fs → Option Text
find_pubkey decode features fs = elim (fw_cfg_key features.fw_cfg fs) [
  | some raw ↦ some raw
  | none ↦ coreboot_key decode features.coreboot fs
]

-- `try_into` of what a system call returns.
abbrev pub to_i32 : Result ℕ ℕ → Result ℕ KeyError
to_i32 (err code) = err (os code)
to_i32 (ok n) = if ltb i32_max n then err out_of_range else ok n

abbrev pub keyring_call : Text → AddKey
keyring_call name = record {
  key_type = codes "keyring";
  description = some name;
  payload = none;
  keyring = user_keyring;
}

abbrev pub key_call : ℕ → Text → AddKey
key_call keyring_id key_content = record {
  key_type = codes "asymmetric";
  description = none;
  payload = some key_content;
  keyring = serial keyring_id;
}

abbrev pub ima_keyring_name : Text
ima_keyring_name = codes "_ima"

abbrev pub io_error : Result (Unit {0}) IoError × Fs → Result (Unit {0}) KeyError × Fs
io_error (err e, fs) = (err (io e), fs)
io_error (ok done, fs) = (ok tt, fs)

-- `std::fs::copy` of the policy.
unfoldable pub install_policy : Fs → Result (Unit {0}) KeyError × Fs
install_policy fs = elim (read_to_string policy_conf fs) [
  | err e ↦ (err (io e), fs)
  | ok policy ↦ io_error (write policy_path policy fs)
]

-- The kernel's keys are a state of any type; the system call is a parameter.
module _ {K : Type 0} (sys_add_key : AddKey → K → Result ℕ ℕ × K) where
  unfoldable pub add_keyring : Text → K → Result ℕ KeyError × K
  add_keyring name k = let (r, k') = sys_add_key (keyring_call name) k in (to_i32 r, k')

  unfoldable pub add_key : ℕ → Text → K → Result ℕ KeyError × K
  add_key keyring_id key_content k =
      let (r, k') = sys_add_key (key_call keyring_id key_content) k in (to_i32 r, k')

  -- The policy is installed only after the key.
  abbrev pub after_key : Fs → Result ℕ KeyError × K → Result (Unit {0}) KeyError × Fs × K
  after_key fs (err e, k) = (err e, fs, k)
  after_key fs (ok key_id, k) = let (r, fs') = install_policy fs in (r, fs', k)

  abbrev pub after_keyring : Text → Fs → Result ℕ KeyError × K → Result (Unit {0}) KeyError × Fs × K
  after_keyring pubkey fs (err e, k) = (err e, fs, k)
  after_keyring pubkey fs (ok keyring_id, k) = after_key fs (add_key keyring_id pubkey k)

  abbrev pub load_pubkey : Option Text → Fs → K → Result (Unit {0}) KeyError × Fs × K
  load_pubkey none fs k = (err no_public_key, fs, k)
  load_pubkey (some pubkey) fs k = after_keyring pubkey fs (add_keyring ima_keyring_name k)

  unfoldable pub load_verification_key :
      (Text → Option Text) → Features → Fs → K → Result (Unit {0}) KeyError × Fs × K
  load_verification_key decode features fs k = load_pubkey (find_pubkey decode features fs) fs k

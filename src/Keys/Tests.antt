-- ===== src/Keys/Tests.antt =====
-- A key that qemu hands over, and a kernel with no keyring.
use tinyboot.Prelude.{ℕ, suc, true, [], ◌∷◌, Option, some, ◌≡◌, refl}
use tinyboot.Result.{Result, ok, err}
use tinyboot.Text.{Text, codes, equal}
use tinyboot.FilePath.{equal_path, equal_parts}
use tinyboot.Fs.{Fs, file, lookup, insert, read_to_string, write, create_new}
use tinyboot.Keys.{
  AddKey, os, Features, fw_cfg_path, policy_conf, policy_path, find_pubkey, add_keyring, add_key,
  install_policy, load_verification_key,
}
use tinyboot.Keys.Guarded.{IsGuarded, load_verification_key-IsGuarded}

abbrev qemu : Features
qemu = record { fw_cfg = true; coreboot = true }

abbrev machine : Fs
machine =
    (fw_cfg_path, file (codes "key"))
    ∷ (policy_conf, file (codes "appraise"))
    ∷ (policy_path, file [])
    ∷ []

-- The keys are numbered in the order in which they come.
abbrev numbered : AddKey → ℕ → Result ℕ ℕ × ℕ
numbered call n = (ok n, suc n)

abbrev decode : Text → Option Text
decode s = some s

verified : load_verification_key numbered decode qemu machine 7 ≡ (
  ok tt,
  (fw_cfg_path, file (codes "key"))
      ∷ (policy_conf, file (codes "appraise"))
      ∷ (policy_path, file (codes "appraise"))
      ∷ [],
  9,
)
unfolding load_verification_key find_pubkey add_keyring add_key install_policy read_to_string write
    create_new lookup insert equal_path equal_parts equal
verified = refl

not_verified :
    load_verification_key {K = ℕ} (λ call n. (err 1, n)) decode qemu machine 7
    ≡ (err (os 1), machine, 7)
unfolding load_verification_key find_pubkey add_keyring add_key install_policy read_to_string write
    create_new lookup insert equal_path equal_parts equal
not_verified = refl

load_verification_key-IsGuarded_example :
    IsGuarded numbered decode qemu machine 7 (load_verification_key numbered decode qemu machine 7)
load_verification_key-IsGuarded_example =
    load_verification_key-IsGuarded numbered decode qemu machine 7

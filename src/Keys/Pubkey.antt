-- ===== src/Keys/Pubkey.antt =====
-- Where load_verification_key finds the key.
use tinyboot.Text.{codes, equal, split, split_onto}
use tinyboot.FilePath.{from_text, components, is_absolute}
use tinyboot.Prelude.{
  true, false, none, Bool, arith, some-injective, ap, sym, ◌∙◌, ◌≢◌, Option, some, ◌≡◌, refl, ap,
  ◌∙◌, inl, inr, Option-cases,
}
use tinyboot.Result.{ok, Result-cases}
use tinyboot.Text.{Text}
use tinyboot.FilePath.{FilePath}
use tinyboot.Fs.{file, Fs, lookup, read_to_string}
use tinyboot.Keys.{fw_cfg_path, vpd_path, fw_cfg_key, coreboot_key, Features, find_pubkey}

-- The key that is found: the file of fw_cfg as it is, or else what the file of the vital product data
-- stands for. A source counts only if the build has its feature.
pub data PubkeyFound (decode : Text → Option Text) (features : Features) (fs : Fs) (pubkey : Text)
    : Type 0 where
  in_fw_cfg :
      features.fw_cfg ≡ true
      → lookup (from_text (codes "/sys/firmware/qemu_fw_cfg/by_name/opt/org.tboot/pubkey/raw")) fs
        ≡ some (file pubkey)
      → PubkeyFound decode features fs pubkey
  in_coreboot :
      (encoded : Text)
      → (features.fw_cfg ≡ true
          → (raw : Text)
          → lookup
              (from_text (codes "/sys/firmware/qemu_fw_cfg/by_name/opt/org.tboot/pubkey/raw"))
              fs
            ≢ some (file raw))
      → features.coreboot ≡ true
      → lookup (from_text (codes "/sys/firmware/vpd/ro/pubkey")) fs ≡ some (file encoded)
      → decode encoded ≡ some pubkey
      → PubkeyFound decode features fs pubkey

pub read-lookup :
    (p : FilePath) (fs : Fs) {s : Text} → read_to_string p fs ≡ ok s → lookup p fs ≡ some (file s)
unfolding read_to_string
read-lookup p fs h = ground arith

lookup-read :
    (p : FilePath) (fs : Fs) {s : Text} → lookup p fs ≡ some (file s) → read_to_string p fs ≡ ok s
unfolding read_to_string
lookup-read p fs h = ground (arith, h)

coreboot_key-some :
    (decode : Text → Option Text) (on : Bool) (fs : Fs) {key : Text}
    → coreboot_key decode on fs ≡ some key
    → (s : Text) × (on ≡ true) × (read_to_string vpd_path fs ≡ ok s) × (decode s ≡ some key)
coreboot_key-some decode false fs h = cc
coreboot_key-some decode true fs h = elim (Result-cases (read_to_string vpd_path fs)) [
  | inl (s, read) ↦ (s, refl, read, rw read at h)
  | inr (e, failed) ↦ cc (rw failed at h)
]

fw_cfg_path-text :
    fw_cfg_path ≡ from_text (codes "/sys/firmware/qemu_fw_cfg/by_name/opt/org.tboot/pubkey/raw")
unfolding from_text components is_absolute split split_onto equal
fw_cfg_path-text = refl

vpd_path-text : vpd_path ≡ from_text (codes "/sys/firmware/vpd/ro/pubkey")
unfolding from_text components is_absolute split split_onto equal
vpd_path-text = refl

fw_cfg_key-none :
    (on : Bool) (fs : Fs) (raw : Text)
    → fw_cfg_key on fs ≡ none
    → on ≡ true
    → lookup fw_cfg_path fs ≢ some (file raw)
fw_cfg_key-none false fs raw h on there = cc
fw_cfg_key-none true fs raw h on there = cc (rw (lookup-read fw_cfg_path fs there) at h)

fw_cfg_key-some :
    (on : Bool) (fs : Fs) {raw : Text}
    → fw_cfg_key on fs ≡ some raw
    → (on ≡ true) × (lookup fw_cfg_path fs ≡ some (file raw))
fw_cfg_key-some false fs h = cc
fw_cfg_key-some true fs h = elim (Result-cases (read_to_string fw_cfg_path fs)) [
  | inl (s, read) ↦ (
    refl,
    read-lookup fw_cfg_path fs read ∙ ap (λ x. some (file x)) (some-injective (rw read at h)),
  )
  | inr (e, failed) ↦ cc (rw failed at h)
]

pub find_pubkey-PubkeyFound :
    (decode : Text → Option Text) (features : Features) (fs : Fs) {pubkey : Text}
    → find_pubkey decode features fs ≡ some pubkey
    → PubkeyFound decode features fs pubkey
unfolding find_pubkey
find_pubkey-PubkeyFound decode features fs h = elim (Option-cases (fw_cfg_key features.fw_cfg fs)) [
  | inr (raw, found) ↦
      let (on, there) = fw_cfg_key-some features.fw_cfg fs (found ∙ rw (found, find_pubkey) at h) in
      in_fw_cfg on (ap (λ p. lookup p fs) (sym fw_cfg_path-text) ∙ there)
  | inl nothing ↦
      let (s, on, read, good) =
        coreboot_key-some decode features.coreboot fs (rw (nothing, find_pubkey) at h) in
      in_coreboot s
        (λ on' raw there.
          fw_cfg_key-none features.fw_cfg fs raw nothing on'
            (ap (λ p. lookup p fs) fw_cfg_path-text ∙ there))
        on (ap (λ p. lookup p fs) (sym vpd_path-text) ∙ read-lookup vpd_path fs read) good
]

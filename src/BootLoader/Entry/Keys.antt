-- ===== src/BootLoader/Entry/Keys.antt =====
-- What one line of an entry file sets: each key its own field, and no key the entry's identity.
use tinyboot.Prelude.{map, ◌++◌, some, if◌then◌else◌, ◌≡◌, refl, arith, Bool-cases, inl, inr}
use tinyboot.Result.{to_option}
use tinyboot.Text.{Text, codes, equal, trim, split_whitespace, split_ascii_whitespace}
use tinyboot.Text.Cut.{equal_iff}
use tinyboot.FilePath.{FilePath}
use tinyboot.BootLoader.Arch.{arch_from_str}
use tinyboot.BootLoader.Entry.{BlsEntry, on_mount, extend, set_key}

module _ (m : FilePath) (key val : Text) (e : BlsEntry) where
  pub architecture-set_key :
      (set_key m key val e).architecture
      ≡ (if equal key (codes "architecture") then to_option (arch_from_str val) else e.architecture)
  architecture-set_key = elim (Bool-cases (equal key (codes "architecture"))) [
    | inl hit ↦ rw ((equal_iff key (codes "architecture")).0 hit) (unfold set_key equal in refl)
    | inr miss ↦ rw miss (unfold set_key in ground arith)
  ]

  pub title-set_key :
      (set_key m key val e).title ≡ (if equal key (codes "title") then some (trim val) else e.title)
  title-set_key = elim (Bool-cases (equal key (codes "title"))) [
    | inl hit ↦ rw ((equal_iff key (codes "title")).0 hit) (unfold set_key equal in refl)
    | inr miss ↦ rw miss (unfold set_key in ground arith)
  ]

  pub version-set_key :
      (set_key m key val e).version
      ≡ (if equal key (codes "version") then some (trim val) else e.version)
  version-set_key = elim (Bool-cases (equal key (codes "version"))) [
    | inl hit ↦ rw ((equal_iff key (codes "version")).0 hit) (unfold set_key equal in refl)
    | inr miss ↦ rw miss (unfold set_key in ground arith)
  ]

  pub machine_id-set_key :
      (set_key m key val e).machine_id
      ≡ (if equal key (codes "machine-id") then some (trim val) else e.machine_id)
  machine_id-set_key = elim (Bool-cases (equal key (codes "machine-id"))) [
    | inl hit ↦ rw ((equal_iff key (codes "machine-id")).0 hit) (unfold set_key equal in refl)
    | inr miss ↦ rw miss (unfold set_key in ground arith)
  ]

  pub sort_key-set_key :
      (set_key m key val e).sort_key
      ≡ (if equal key (codes "sort-key") then some (trim val) else e.sort_key)
  sort_key-set_key = elim (Bool-cases (equal key (codes "sort-key"))) [
    | inl hit ↦ rw ((equal_iff key (codes "sort-key")).0 hit) (unfold set_key equal in refl)
    | inr miss ↦ rw miss (unfold set_key in ground arith)
  ]

  pub efi-set_key :
      (set_key m key val e).efi ≡ (if equal key (codes "efi") then some (on_mount m val) else e.efi)
  efi-set_key = elim (Bool-cases (equal key (codes "efi"))) [
    | inl hit ↦ rw ((equal_iff key (codes "efi")).0 hit) (unfold set_key equal in refl)
    | inr miss ↦ rw miss (unfold set_key in ground arith)
  ]

  pub linux-set_key :
      (set_key m key val e).linux
      ≡ (if equal key (codes "linux") then some (on_mount m val) else e.linux)
  linux-set_key = elim (Bool-cases (equal key (codes "linux"))) [
    | inl hit ↦ rw ((equal_iff key (codes "linux")).0 hit) (unfold set_key equal in refl)
    | inr miss ↦ rw miss (unfold set_key in ground arith)
  ]

  pub initrd-set_key : (set_key m key val e).initrd ≡ (
      if equal key (codes "initrd")
      then extend e.initrd (map (on_mount m) (split_ascii_whitespace val))
      else e.initrd)
  initrd-set_key = elim (Bool-cases (equal key (codes "initrd"))) [
    | inl hit ↦ rw ((equal_iff key (codes "initrd")).0 hit) (unfold set_key equal in refl)
    | inr miss ↦ rw miss (unfold set_key in ground arith)
  ]

  pub options-set_key : (set_key m key val e).options ≡ (
      if equal key (codes "options") then e.options ++ split_whitespace (trim val) else e.options)
  options-set_key = elim (Bool-cases (equal key (codes "options"))) [
    | inl hit ↦ rw ((equal_iff key (codes "options")).0 hit) (unfold set_key equal in refl)
    | inr miss ↦ rw miss (unfold set_key in ground arith)
  ]

  pub devicetree-set_key :
      (set_key m key val e).devicetree
      ≡ (if equal key (codes "devicetree") then some (on_mount m val) else e.devicetree)
  devicetree-set_key = elim (Bool-cases (equal key (codes "devicetree"))) [
    | inl hit ↦ rw ((equal_iff key (codes "devicetree")).0 hit) (unfold set_key equal in refl)
    | inr miss ↦ rw miss (unfold set_key in ground arith)
  ]

  pub devicetree_overlay-set_key : (set_key m key val e).devicetree_overlay ≡ (
      if equal key (codes "devicetree-overlay")
      then extend e.devicetree_overlay (map (on_mount m) (split_ascii_whitespace val))
      else e.devicetree_overlay)
  devicetree_overlay-set_key = elim (Bool-cases (equal key (codes "devicetree-overlay"))) [
    | inl hit ↦
        rw ((equal_iff key (codes "devicetree-overlay")).0 hit) (unfold set_key equal in refl)
    | inr miss ↦ rw miss (unfold set_key in ground arith)
  ]

  pub entry_path-set_key : (set_key m key val e).entry_path ≡ e.entry_path
  unfolding set_key
  entry_path-set_key = ground arith

  pub name-set_key : (set_key m key val e).name ≡ e.name
  unfolding set_key
  name-set_key = ground arith

  pub tries_left-set_key : (set_key m key val e).tries_left ≡ e.tries_left
  unfolding set_key
  tries_left-set_key = ground arith

  pub tries_done-set_key : (set_key m key val e).tries_done ≡ e.tries_done
  unfolding set_key
  tries_done-set_key = ground arith

  pub is_default-set_key : (set_key m key val e).is_default ≡ e.is_default
  unfolding set_key
  is_default-set_key = ground arith

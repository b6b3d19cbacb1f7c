-- ===== src/NixosInstall/Installed.antt =====
-- Entries that are there already when the installer runs.
use tinyboot.Prelude.{
  ℕ, Bool, true, false, ◌&&◌, List, [], ◌∷◌, ◌++◌, Option, some, ◌≡◌, ◌∙◌, ◌⊎◌, inl, inr, All,
}
use tinyboot.Text.{Text, codes, contains, starts_with}
use tinyboot.Text.Decimal.{to_string}
use tinyboot.FilePath.{FilePath, file_name}
use tinyboot.Fs.{Fs, is_file}
use tinyboot.NixosInstall.{
  Args, State, Profile, is_known, entries_dir, glob_pattern, entry_number_of,
}
use tinyboot.NixosInstall.Clean.{is_in}
use tinyboot.NixosInstall.Keeps.{KeepsFiles}

-- An entry of a generation, of no specialisation, that the pattern of the generation matches.
pub record IsEntryOf (args : Args) (n : ℕ) (fs : Fs) (q : FilePath) : Type 0 where
  pub rest : Text
  pub inside : is_in (entries_dir args) q ≡ true
  pub there : is_file q fs ≡ true
  pub is_named :
      file_name q ≡ some (codes "nixos-generation-" ++ (to_string n ++ (rest ++ codes ".conf")))
  pub no_specialisation :
      contains
        (codes "specialisation")
        (codes "nixos-generation-" ++ (to_string n ++ (rest ++ codes ".conf")))
      ≡ false

abbrev pub KeepsState : State → State → Type 0
KeepsState st st' = KeepsFiles st.fs st'.fs × (st'.known_entry_files ≡ st.known_entry_files)

pub KeepsState-trans : (a b c : State) → KeepsState a b → KeepsState b c → KeepsState a c
KeepsState-trans a b c h k = ((λ q there. k.0 q (h.0 q there)), k.1 ∙ h.1)

-- The entry of a generation is still one.
pub IsEntryOf-KeepsFiles :
    (args : Args) (n : ℕ) (fs fs' : Fs) (q : FilePath)
    → KeepsFiles fs fs'
    → IsEntryOf args n fs q
    → IsEntryOf args n fs' q
IsEntryOf-KeepsFiles args n fs fs' q keep e = record {
  rest = e.rest;
  inside = e.inside;
  there = keep q e.there;
  is_named = e.is_named;
  no_specialisation = e.no_specialisation;
}

-- A profile is no system profile, or the entry of its generation is there.
pub record HasEntry (args : Args) (fs : Fs) (profile : Profile) : Type 0 where
  pub number : ℕ
  pub path : FilePath
  pub is_numbered : entry_number_of profile.name ≡ some number
  pub entry : IsEntryOf args number fs path

abbrev pub is_system : Profile → Bool
is_system profile = profile.is_symlink && starts_with (codes "system-") profile.name

abbrev pub IsInstalled : Args → Fs → Profile → Type 0
IsInstalled args fs profile = (is_system profile ≡ false) ⊎ HasEntry args fs profile

IsInstalled-step :
    (args : Args) (fs fs' : Fs) (p : Profile)
    → KeepsFiles fs fs'
    → IsInstalled args fs p
    → IsInstalled args fs' p
IsInstalled-step args fs fs' p keep (inl other) = inl other
IsInstalled-step args fs fs' p keep (inr e) = inr (record {
  number = e.number;
  path = e.path;
  is_numbered = e.is_numbered;
  entry = IsEntryOf-KeepsFiles args e.number fs fs' e.path keep e.entry;
})

pub IsInstalled-KeepsFiles :
    (args : Args) (fs fs' : Fs) (ps : List Profile)
    → KeepsFiles fs fs'
    → All (IsInstalled args fs) ps
    → All (IsInstalled args fs') ps
IsInstalled-KeepsFiles args fs fs' [] keep is_installed = tt
IsInstalled-KeepsFiles args fs fs' (p ∷ ps) keep (i, is_installed) =
    (IsInstalled-step args fs fs' p keep i, IsInstalled-KeepsFiles args fs fs' ps keep is_installed)

-- A program that signs files removes none, and a glob matches every entry that fits its pattern.
abbrev pub Signs : (FilePath → Fs → Option Fs) → Type 0
Signs sign = (p : FilePath) (fs fs' : Fs) → sign p fs ≡ some fs' → KeepsFiles fs fs'

abbrev pub Globs : Args → (Text → Fs → Option (List FilePath)) → Type 0
Globs args glob =
    (n : ℕ) (fs : Fs) (es : List FilePath) (q : FilePath)
    → glob (glob_pattern args n) fs ≡ some es
    → IsEntryOf args n fs q
    → is_known q es ≡ true

-- ===== src/BootLoader/Disk/Rank.antt =====
-- The order of entries and the architectures that they may name, said with no comparison function.
use tinyboot.Prelude.{
  ltb, ℕ, ◌<◌, true, false, List, [], ◌∷◌, Option, none, some, ◌≡◌, refl, arith, ap, ◌⊎◌, inl, inr,
  Bool-cases,
}
use tinyboot.Text.{Text, codes, equal}
use tinyboot.Text.Cut.{equal_iff}
use tinyboot.BootLoader.Arch.{
  EfiArch, ia32, x64, arm, aa64, riscv32, riscv64, loong_arch32, loong_arch64, is_running_arch,
}
use tinyboot.BootLoader.Entry.{BlsEntry}
use tinyboot.BootLoader.Disk.{less, less_option, goes_before, runs_on}
use tinyboot.BootLoader.Disk.Order.{Sorted}

-- A text before another one in a dictionary.
pub data LessText : Text → Text → Type 0 where
  ends : {d : ℕ} {t : Text} → LessText [] (d ∷ t)
  differs : {c d : ℕ} {s t : Text} → c < d → LessText (c ∷ s) (d ∷ t)
  agrees : {c d : ℕ} {s t : Text} → c ≡ d → LessText s t → LessText (c ∷ s) (d ∷ t)

-- No text comes before any text.
pub data LessOption : Option Text → Option Text → Type 0 where
  absent : {t : Text} → LessOption none (some t)
  present : {s t : Text} → LessText s t → LessOption (some s) (some t)

-- Later versions come first; of one version the titles are in order, and of one title the names.
pub data Before (a b : BlsEntry) : Type 0 where
  by_version : LessOption b.version a.version → Before a b
  by_title : a.version ≡ b.version → LessOption a.title b.title → Before a b
  by_name :
      a.version ≡ b.version
      → a.title ≡ b.title
      → LessText a.name b.name ⊎ (a.name ≡ b.name)
      → Before a b

abbrev pub Ranked : List BlsEntry → Type 0
Ranked [] = Unit
Ranked (a ∷ []) = Unit
Ranked (a ∷ b ∷ es) = Before a b × Ranked (b ∷ es)

less-LessText : (s t : Text) → less s t ≡ true → LessText s t
unfolding less
less-LessText s [] h = cc
less-LessText [] (d ∷ t) h = ends
less-LessText (c ∷ s) (d ∷ t) h = elim (Bool-cases (ltb c d)) [
  | inl lower ↦ differs (ground arith)
  | inr other ↦ agrees (ground arith) (less-LessText s t (ground arith))
]

same_text : (s t : Text) → less s t ≡ false → less t s ≡ false → s ≡ t
unfolding less
same_text [] [] h k = refl
same_text [] (d ∷ t) h k = cc
same_text (c ∷ s) [] h k = cc
same_text (c ∷ s) (d ∷ t) h k = ground (arith, same_text s t)

less_option-LessOption : (s t : Option Text) → less_option s t ≡ true → LessOption s t
less_option-LessOption s none h = cc
less_option-LessOption none (some t) h = absent
less_option-LessOption (some s) (some t) h = present (less-LessText s t h)

same_option : (s t : Option Text) → less_option s t ≡ false → less_option t s ≡ false → s ≡ t
same_option none none h k = refl
same_option none (some t) h k = cc
same_option (some s) none h k = cc
same_option (some s) (some t) h k = ap some (same_text s t h k)

goes_before-Before : (a b : BlsEntry) → goes_before a b ≡ true → Before a b
unfolding goes_before
goes_before-Before a b h = elim (Bool-cases (less_option a.version b.version)) [
  | inl earlier ↦ cc (rw (earlier, goes_before) at h)
  | inr no_earlier ↦ elim (Bool-cases (less_option b.version a.version)) [
    | inl later ↦ by_version (less_option-LessOption b.version a.version later)
    | inr no_later ↦
        let version : a.version ≡ b.version = same_option a.version b.version no_earlier no_later in
        elim (Bool-cases (less_option b.title a.title)) [
          | inl behind ↦ cc (rw (no_earlier, no_later, behind, goes_before) at h)
          | inr no_behind ↦ elim (Bool-cases (less_option a.title b.title)) [
            | inl before ↦ by_title version (less_option-LessOption a.title b.title before)
            | inr no_before ↦
                let title : a.title ≡ b.title = same_option a.title b.title no_before no_behind in
                elim (Bool-cases (less b.name a.name)) [
                  | inl last ↦
                      cc (rw (no_earlier, no_later, no_behind, no_before, last, goes_before) at h)
                  | inr no_last ↦ elim (Bool-cases (less a.name b.name)) [
                    | inl ahead ↦ by_name version title (inl (less-LessText a.name b.name ahead))
                    | inr no_ahead ↦
                        by_name version title (inr (same_text a.name b.name no_ahead no_last))
                  ]
                ]
          ]
        ]
  ]
]

pub Sorted-Ranked : (es : List BlsEntry) → Sorted es → Ranked es
Sorted-Ranked [] s = tt
Sorted-Ranked (a ∷ []) s = tt
Sorted-Ranked (a ∷ b ∷ es) s = (goes_before-Before a b s.0, Sorted-Ranked (b ∷ es) s.1)

-- The names of the running architecture that an architecture of an entry stands for.
abbrev pub Suits : EfiArch → Text → Type 0
Suits ia32 arch = true ≡ false
Suits x64 arch = (arch ≡ codes "x86") ⊎ (arch ≡ codes "x86_64")
Suits arm arch = arch ≡ codes "arm"
Suits aa64 arch = arch ≡ codes "aarch64"
Suits riscv32 arch = arch ≡ codes "riscv32"
Suits riscv64 arch = arch ≡ codes "riscv64"
Suits loong_arch32 arch = arch ≡ codes "loongarch32"
Suits loong_arch64 arch = arch ≡ codes "LoongArch64"

-- An entry names no architecture, or one that suits.
abbrev pub SuitsOption : Option EfiArch → Text → Type 0
SuitsOption none arch = Unit
SuitsOption (some a) arch = Suits a arch

pub runs_on-Suits : (a : Option EfiArch) (arch : Text) → runs_on a arch ≡ true → SuitsOption a arch
unfolding is_running_arch
runs_on-Suits none arch h = tt
runs_on-Suits (some ia32) arch h = cc
runs_on-Suits (some x64) arch h = elim (Bool-cases (equal arch (codes "x86"))) [
  | inl same ↦ inl ((equal_iff arch (codes "x86")).0 same)
  | inr other ↦ inr ((equal_iff arch (codes "x86_64")).0 (rw (other, is_running_arch) at h))
]
runs_on-Suits (some arm) arch h = (equal_iff arch (codes "arm")).0 h
runs_on-Suits (some aa64) arch h = (equal_iff arch (codes "aarch64")).0 h
runs_on-Suits (some riscv32) arch h = (equal_iff arch (codes "riscv32")).0 h
runs_on-Suits (some riscv64) arch h = (equal_iff arch (codes "riscv64")).0 h
runs_on-Suits (some loong_arch32) arch h = (equal_iff arch (codes "loongarch32")).0 h
runs_on-Suits (some loong_arch64) arch h = (equal_iff arch (codes "LoongArch64")).0 h

-- ===== src/NixosInstall/EntryFile.antt =====
-- The entry file that the installer writes, as the boot loader reads it.
use tinyboot.Prelude.{
  false, List, [], ◌∷◌, ◌++◌, Option, none, some, ◌≡◌, refl, arith, ap, ◌∙◌, All, All-append,
}
use tinyboot.Result.{Result}
use tinyboot.Text.{
  Text, codes, equal, lines, join, trim, split, split_onto, split_whitespace, is_whitespace,
  trim_start_by, Lacks,
}
use tinyboot.Text.Cut.{split_once-append}
use tinyboot.Text.Words.{
  IsWord, split_whitespace-space, split_whitespace-join, split_whitespace-trim,
}
use tinyboot.Text.Lines.{is_line_end, lines-cons, literal_line}
use tinyboot.FilePath.{FilePath, append, from_text, named, display, components, is_absolute}
use tinyboot.FilePath.Laws.{IsFileName, split_onto-Lacks}
use tinyboot.Fs.{IoError}
use tinyboot.BootLoader.Entry.{BlsEntry, on_mount, set_key, parse_line}
use tinyboot.NixosInstall.{
  Bootspec, efi_nixos, root_dir, or_default, title_suffix, initrd_line, machine_id_line,
  entry_contents,
}

-- A key and its value on a line.
pub parse_line-pair :
    (m : FilePath) (k v : Text) (e : BlsEntry)
    → Lacks is_whitespace k
    → parse_line m e (k ++ b' ' ∷ v) ≡ set_key m k v e
unfolding parse_line
parse_line-pair m k v e h =
    rw (parse_line, split_once-append is_whitespace k b' ' v h (unfold is_whitespace in refl))

-- The path of an installed file from the mount point of the EFI system partition.
abbrev pub installed : Text → FilePath
installed name = append efi_nixos (named name)

-- The path that a line of the entry gives leads to the installed file.
pub on_mount-installed :
    (m : FilePath) (name : Text)
    → IsFileName name
    → on_mount m (display (append root_dir (installed name))) ≡ append m (installed name)
unfolding on_mount display append trim_start_by from_text is_absolute components split split_onto
    equal join
on_mount-installed m name h = rw (split_onto-Lacks b'/' [] name h.no_slash, h.ne_nil, h.ne_dot)

pub options_words :
    (w : Text) (ws : List Text)
    → IsWord is_whitespace w
    → All (IsWord is_whitespace) ws
    → split_whitespace (trim (w ++ b' ' ∷ join (codes " ") ws)) ≡ w ∷ ws
unfolding join
options_words w [] h hs =
    split_whitespace-trim (w ++ b' ' ∷ [])
    ∙ split_whitespace-space w
    ∙ split_whitespace-join (w ∷ []) (h, tt)
options_words w (v ∷ ws) h hs =
    split_whitespace-trim (w ++ b' ' ∷ join (codes " ") (v ∷ ws))
    ∙ split_whitespace-join (w ∷ v ∷ ws) (h, hs)

-- Lines, each with its end.
abbrev ended : List Text → Text
ended [] = []
ended (l ∷ ls) = l ++ b'\n' ∷ ended ls

lines-ended : (ls : List Text) → All (Lacks is_line_end) ls → lines (ended ls) ≡ ls
lines-ended [] h = unfold lines in refl
lines-ended (l ∷ ls) h =
    lines-cons l (ended ls) h.0 ∙ ap (λ (rest : List Text). l ∷ rest) (lines-ended ls h.1)

no_space-line : (s : Text) → Lacks is_whitespace s → Lacks is_line_end s
unfolding is_whitespace
no_space-line [] h = tt
no_space-line (c ∷ s) h = (ground (arith, h.0), no_space-line s h.1)

after : (a s : Text) → Lacks is_line_end a → Lacks is_line_end s → Lacks is_line_end (a ++ s)
after a s h k = All-append (λ c. is_line_end c ≡ false) a s h k

join-line :
    (ws : List Text) → All (IsWord is_whitespace) ws → Lacks is_line_end (join (codes " ") ws)
unfolding join
join-line [] h = tt
join-line (w ∷ []) h = no_space-line w h.0.free
join-line (w ∷ v ∷ ws) h = after w _ (no_space-line w h.0.free) (refl, join-line (v ∷ ws) h.1)

abbrev pub installed_of : Option Text → Option FilePath
installed_of none = none
installed_of (some name) = some (installed name)

-- A name of a file that is a word.
abbrev pub IsPlain : Option Text → Type 0
IsPlain none = Unit
IsPlain (some name) = IsFileName name × Lacks is_whitespace name

-- What the parts of a generation must be to be read back: lines, words, and names of files.
pub record IsReadable (g : Bootspec) (specialisation : Option Text) (kernel_name : Text)
    (initrd_name : Option Text) (machine_id : Result Text IoError) : Type 0 where
  pub title_line : Lacks is_line_end (or_default title_suffix specialisation)
  pub label_line : Lacks is_line_end g.label
  pub kernel_is_name : IsFileName kernel_name
  pub kernel_line : Lacks is_line_end kernel_name
  pub initrd_is_plain : IsPlain initrd_name
  pub init_word : Lacks is_whitespace (display g.init)
  pub params_words : All (IsWord is_whitespace) g.kernel_params
  pub machine_id_one_line : Lacks is_line_end (machine_id_line machine_id)

installed-line :
    (name : Text)
    → Lacks is_line_end name
    → Lacks is_line_end (display (append root_dir (installed name)))
unfolding display append join
installed-line name h = after (codes "/EFI/nixos/") name (literal_line (codes "/EFI/nixos/") refl) h

module _ (g : Bootspec) (specialisation : Option Text) (kernel_name : Text)
    (initrd_name : Option Text) (machine_id : Result Text IoError)
    (h : IsReadable g specialisation kernel_name initrd_name machine_id) where
  abbrev pub contents : Text
  contents =
      entry_contents g specialisation (installed kernel_name) (installed_of initrd_name) machine_id

  abbrev pub contents_lines : List Text
  contents_lines =
      (codes "title NixOS" ++ or_default title_suffix specialisation)
      ∷ (codes "version " ++ g.label)
      ∷ (codes "linux " ++ display (append root_dir (installed kernel_name)))
      ∷ initrd_line (installed_of initrd_name)
      ∷ (codes "options init=" ++ (display g.init ++ (b' ' ∷ join (codes " ") g.kernel_params)))
      ∷ machine_id_line machine_id
      ∷ []

  contents-ended : contents ≡ ended contents_lines
  unfolding entry_contents
  contents-ended = refl

  initrd-line : Lacks is_line_end (initrd_line (installed_of initrd_name))
  initrd-line = by_name initrd_name h.initrd_is_plain
    where
      by_name : (n : Option Text) → IsPlain n → Lacks is_line_end (initrd_line (installed_of n))
      by_name none k = tt
      by_name (some name) k =
          after (codes "initrd ") _ (literal_line (codes "initrd ") refl)
            (installed-line name (no_space-line name k.1))

  pub lines-contents : lines contents ≡ contents_lines
  lines-contents =
      ap lines contents-ended
      ∙ lines-ended contents_lines (
        after (codes "title NixOS") _ (literal_line (codes "title NixOS") refl) h.title_line,
        (
          after (codes "version ") _ (literal_line (codes "version ") refl) h.label_line,
          (
            after (codes "linux ") _ (literal_line (codes "linux ") refl)
                (installed-line kernel_name h.kernel_line),
            (
              initrd-line,
              (
                after (codes "options init=") _ (literal_line (codes "options init=") refl) (
                    after (display g.init) _ (no_space-line _ h.init_word)
                      (refl, join-line _ h.params_words)),
                (h.machine_id_one_line, tt),
              ),
            ),
          ),
        ),
      )

-- ===== src/NixosInstall/ReadBack.antt =====
-- The boot entry that the boot loader reads from a file of the installer.
use tinyboot.Prelude.{
  ℕ, ◌≤◌, false, List, [], ◌∷◌, ◌++◌, map, Option, none, some, ◌≡◌, refl, ap, ◌∙◌, All-append,
}
use tinyboot.Result.{Result, ok, err}
use tinyboot.Text.{Text, codes, equal, lines, join, trim, split_once, is_whitespace, Lacks}
use tinyboot.Text.Decimal.{u32_max}
use tinyboot.Text.Words.{IsWord, literal, is_word, split_ascii_whitespace-word}
use tinyboot.FilePath.{FilePath, append, named, display}
use tinyboot.FilePath.Laws.{file_name-append}
use tinyboot.Fs.{IoError}
use tinyboot.Bls.{BlsEntryMetadata, is_plus}
use tinyboot.BootLoader.Entry.{
  BlsEntry, default, on_mount, extend, set_key, parse_line, parse_lines, parse_entry_conf,
  identified, with_pretty_name,
}
use tinyboot.NixosInstall.{
  Bootspec, root_dir, or_default, title_suffix, name_suffix, initrd_line, machine_id_line,
  entry_contents, entry_filename,
}
use tinyboot.NixosInstall.EntryFile.{
  IsReadable, IsPlain, installed, installed_of, contents, lines-contents, parse_line-pair,
  on_mount-installed, options_words,
}
use tinyboot.NixosInstall.EntryName.{
  base_name, is_slash, entry_filename-IsFileName, entry_filename-counted,
}

abbrev pub machine_id_of : Result Text IoError → Option Text
machine_id_of (err e) = none
machine_id_of (ok machine_id) = some (trim (trim machine_id))

abbrev pub initrds_of : FilePath → Option Text → Option (List FilePath)
initrds_of m none = none
initrds_of m (some name) = some (append m (installed name) ∷ [])

installed-IsWord :
    (name : Text)
    → Lacks is_whitespace name
    → IsWord is_whitespace (display (append root_dir (installed name)))
unfolding display append join is_word is_whitespace
installed-IsWord name h = record {
  ne_nil = λ e. cc e;
  free =
      All-append (λ c. is_whitespace c ≡ false) (codes "/EFI/nixos/") name
        (literal (codes "/EFI/nixos/") refl).free h;
}

initrd_line-read :
    (m : FilePath) (n : Option Text) (e : BlsEntry)
    → IsPlain n
    → e.initrd ≡ none
    → parse_line m e (initrd_line (installed_of n)) ≡ record e { initrd = initrds_of m n }
unfolding parse_line split_once set_key equal is_whitespace is_word
initrd_line-read m none e h k = ap (λ (x : Option (List FilePath)). record e { initrd = x }) k
initrd_line-read m (some name) e h k =
    parse_line-pair m (codes "initrd") (display (append root_dir (installed name))) e
      (literal (codes "initrd") refl).free
    ∙ ap (λ (vs : List Text). record e { initrd = extend e.initrd (map (on_mount m) vs) })
        (split_ascii_whitespace-word (display (append root_dir (installed name)))
          (installed-IsWord name h.1))
    ∙ ap (λ (p : FilePath). record e { initrd = extend e.initrd (p ∷ []) })
        (on_mount-installed m name h.0)
    ∙ ap
        (λ (old : Option (List FilePath)). record e {
          initrd = extend old (append m (installed name) ∷ []);
        })
        k

machine_id_line-read :
    (m : FilePath) (id : Result Text IoError) (e : BlsEntry)
    → e.machine_id ≡ none
    → parse_line m e (machine_id_line id) ≡ record e { machine_id = machine_id_of id }
unfolding parse_line split_once set_key equal is_whitespace is_word
machine_id_line-read m (err x) e k = ap (λ (x : Option Text). record e { machine_id = x }) k
machine_id_line-read m (ok id) e k =
    parse_line-pair m (codes "machine-id") (trim id) e (literal (codes "machine-id") refl).free

init-IsWord : {s : Text} → Lacks is_whitespace s → IsWord is_whitespace (codes "init=" ++ s)
unfolding is_word is_whitespace
init-IsWord {s} h = record {
  ne_nil = λ e. cc e;
  free =
      All-append (λ c. is_whitespace c ≡ false) (codes "init=") s
        (literal (codes "init=") refl).free h;
}

module _ (m : FilePath) (g : Bootspec) (specialisation : Option Text) (kernel_name : Text)
    (initrd_name : Option Text) (machine_id : Result Text IoError)
    (h : IsReadable g specialisation kernel_name initrd_name machine_id) where
  abbrev title : Text
  title = trim (codes "NixOS" ++ or_default title_suffix specialisation)

  -- What is read into an entry that has its identity and nothing else.
  abbrev filled : BlsEntry → BlsEntry
  filled e = record e {
    title = some title;
    version = some (trim g.label);
    linux = some (append m (installed kernel_name));
    initrd = initrds_of m initrd_name;
    options = (codes "init=" ++ display g.init) ∷ g.kernel_params;
    machine_id = machine_id_of machine_id;
  }

  parse_lines-contents :
      (p : FilePath) (c : BlsEntryMetadata)
      → parse_lines m
          (lines (contents g specialisation kernel_name initrd_name machine_id h))
          (identified p c)
        ≡ filled (identified p c)
  unfolding parse_lines set_key equal is_whitespace is_word identified
  parse_lines-contents p c =
      let e0 : BlsEntry = identified p c in
      let e1 : BlsEntry = record e0 { title = some title } in
      let e2 : BlsEntry = record e1 { version = some (trim g.label) } in
      let e3 : BlsEntry = record e2 { linux = some (append m (installed kernel_name)) } in
      let e4 : BlsEntry = record e3 { initrd = initrds_of m initrd_name } in
      let words : List Text = (codes "init=" ++ display g.init) ∷ g.kernel_params in
      let e5 : BlsEntry = record e4 { options = words } in
      let first : parse_line m e0 (codes "title NixOS" ++ or_default title_suffix specialisation)
          ≡ e1 =
        parse_line-pair m (codes "title") (codes "NixOS" ++ or_default title_suffix specialisation)
          e0 (literal (codes "title") refl).free in
      let second : parse_line m e1 (codes "version " ++ g.label) ≡ e2 =
        parse_line-pair m (codes "version") g.label e1 (literal (codes "version") refl).free in
      let third : parse_line m e2
            (codes "linux " ++ display (append root_dir (installed kernel_name)))
          ≡ e3 =
        parse_line-pair m (codes "linux") (display (append root_dir (installed kernel_name))) e2
          (literal (codes "linux") refl).free
        ∙ ap (λ (x : FilePath). record e2 { linux = some x })
            (on_mount-installed m kernel_name h.kernel_is_name) in
      let fourth : parse_line m e3 (initrd_line (installed_of initrd_name)) ≡ e4 =
        initrd_line-read m initrd_name e3 h.initrd_is_plain refl in
      let fifth : parse_line m e4
            (codes "options init=" ++ (display g.init ++ (b' ' ∷ join (codes " ") g.kernel_params)))
          ≡ e5 =
        parse_line-pair m (codes "options")
          (codes "init=" ++ (display g.init ++ (b' ' ∷ join (codes " ") g.kernel_params))) e4
          (literal (codes "options") refl).free
        ∙ ap (λ (x : List Text). record e4 { options = x })
            (options_words (codes "init=" ++ display g.init) g.kernel_params
              (init-IsWord h.init_word) h.params_words) in
      rw
        (
          lines-contents g specialisation kernel_name initrd_name machine_id h,
          first,
          second,
          third,
          fourth,
          fifth,
        )
        (machine_id_line-read m machine_id e5 refl)

-- The boot loader reads the file that the installer writes for a generation as the entry with the
-- name of the generation, as many tries as the installer was called with, the kernel and the initrd
-- at the paths to which the installer copies them, and the command line of the generation: if the
-- label, the specialisation, the kernel's name and the machine id, once it is trimmed, are of one
-- line, the init program, the parameters and the initrd's name are words, the names of the kernel and
-- of the initrd are names of files, a specialisation has no `/` and no `+` in its name, and the tries
-- fit 32 bits.
pub parse_entry_conf-entry_contents :
    (d m : FilePath) (n max : ℕ) (g : Bootspec) (specialisation : Option Text) (kernel_name : Text)
    (initrd_name : Option Text) (machine_id : Result Text IoError)
    → IsReadable g specialisation kernel_name initrd_name machine_id
    → Lacks is_slash (or_default name_suffix specialisation)
    → Lacks is_plus (or_default name_suffix specialisation)
    → max ≤ u32_max
    → let path : FilePath = append d (named (entry_filename n specialisation max)) in
      let title : Text = trim (codes "NixOS" ++ or_default title_suffix specialisation) in
      parse_entry_conf m path (
        entry_contents g specialisation
          (installed kernel_name)
          (installed_of initrd_name)
          machine_id)
      ≡ ok (record default {
        entry_path = path;
        name = base_name n specialisation;
        tries_left = some max;
        tries_done = none;
        pretty_name = title ++ (b' ' ∷ trim g.label);
        title = some title;
        version = some (trim g.label);
        linux = some (append m (installed kernel_name));
        initrd = initrds_of m initrd_name;
        options = (codes "init=" ++ display g.init) ∷ g.kernel_params;
        machine_id = machine_id_of machine_id;
      })
unfolding parse_entry_conf with_pretty_name identified
parse_entry_conf-entry_contents d m n max g specialisation kernel_name initrd_name machine_id h
      slash plus fits =
    rw
      (
        file_name-append d (entry_filename n specialisation max)
            (entry_filename-IsFileName n max specialisation slash),
        entry_filename-counted n max specialisation plus fits,
      )
      (ap (λ (e : BlsEntry). ok (with_pretty_name e))
        (parse_lines-contents m g specialisation kernel_name initrd_name machine_id h _
          (base_name n specialisation, some max, none)))

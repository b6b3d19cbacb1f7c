-- ===== src/Generator/Linked.antt =====
-- The generator on the command line that the loader writes.
use tinyboot.Prelude.{
  true, false, List, [], ◌∷◌, ◌++◌, append_assoc, Option, none, some, ◌≡◌, refl, arith, ap, sym,
  ◌∙◌,
}
use tinyboot.Result.{ok}
use tinyboot.Text.{Text, codes, contains, starts_with, join}
use tinyboot.Text.Cut.{strip_prefix-append}
use tinyboot.FilePath.Laws.{parent-append}
use tinyboot.Fs.{file, dir, lookup, insert, create_dir_all}
use tinyboot.Fs.Laws.{create_new-ok}
use tinyboot.BootLoader.Entry.{BlsEntry, cmdline_of}
use tinyboot.Generator.{
  UnitTree, in_initrd, wants_dir, unit_path, service, io_error, create_unit, generate_in, main,
}

starts-contains : (p s : Text) → starts_with p s ≡ true → contains p s ≡ true
unfolding contains
starts-contains p [] h = h
starts-contains p (c ∷ s) h = ground arith

contains-append : (p a b : Text) → contains p (a ++ (p ++ b)) ≡ true
unfolding contains starts_with
contains-append p [] b = starts-contains p (p ++ b) (ground (arith, strip_prefix-append p b))
contains-append p (c ∷ a) b = ground (arith, contains-append p a b)

-- A list of words that are joined ends in its last word.
join-last :
    (sep : Text) (ws : List Text) (w : Text) → (pre : Text) × (join sep (ws ++ w ∷ []) ≡ pre ++ w)
unfolding join
join-last sep [] w = ([], refl)
join-last sep (v ∷ []) w = (v ++ sep, sym (append_assoc v sep w))
join-last sep (v ∷ u ∷ ws) w =
    let (pre, e) = join-last sep (u ∷ ws) w in
    (
      v ++ (sep ++ pre),
      ap (λ x. v ++ (sep ++ x)) e
          ∙ ap (λ x. v ++ x) (sym (append_assoc sep pre w))
          ∙ sym (append_assoc v (sep ++ pre) w),
    )

cmdline_of-counted :
    (e : BlsEntry) (after : Text)
    → contains (codes "tboot.bls-entry") (cmdline_of e ++ after) ≡ true
unfolding cmdline_of
cmdline_of-counted e after =
    let (pre, whole) = join-last (codes " ") e.options (codes "tboot.bls-entry=" ++ e.name) in
    ap (λ x. contains (codes "tboot.bls-entry") (x ++ after)) whole
    ∙ ap (contains (codes "tboot.bls-entry"))
        (append_assoc pre (codes "tboot.bls-entry=" ++ e.name) after)
    ∙ contains-append (codes "tboot.bls-entry") pre ((b'=' ∷ e.name) ++ after)

create_unit-linked :
    (early_dir : Text) (t t' : UnitTree)
    → create_dir_all (wants_dir early_dir) t ≡ (ok tt, t')
    → lookup (wants_dir early_dir) t' ≡ some dir
    → lookup (unit_path early_dir) t' ≡ none
    → create_unit (unit_path early_dir) t ≡ (ok tt, insert (unit_path early_dir) (file service) t')
unfolding create_unit unit_path
create_unit-linked early_dir t t' made there free =
    rw (parent-append (wants_dir early_dir) (codes "tboot-bless-boot.service"), create_unit, made)
      (ap io_error (
        create_new-ok (unit_path early_dir) (wants_dir early_dir) service t' free
          (parent-append (wants_dir early_dir) (codes "tboot-bless-boot.service")) there))

-- Run as systemd runs it, in a system that the loader booted by an entry, the generator links the
-- unit of tboot-bless-boot into the directory that systemd gives it first, the normal one: if it can
-- make the directory of the links there, and nothing is in the way.
pub main-cmdline_of :
    (program normal_dir early_dir late_dir : Text) (systemd_in_initrd : Option Text) (e : BlsEntry)
    (after : Text) (t t' : UnitTree)
    → in_initrd systemd_in_initrd ≡ false
    → create_dir_all (wants_dir normal_dir) t ≡ (ok tt, t')
    → lookup (wants_dir normal_dir) t' ≡ some dir
    → lookup (unit_path normal_dir) t' ≡ none
    → main
        (program ∷ normal_dir ∷ early_dir ∷ late_dir ∷ [])
        systemd_in_initrd
        (ok (cmdline_of e ++ after))
        t
      ≡ (ok tt, insert (unit_path normal_dir) (file service) t')
unfolding main generate_in
main-cmdline_of program normal_dir early_dir late_dir systemd_in_initrd e after t t' outside made
      there free =
    rw (outside, main, generate_in, cmdline_of-counted e after)
      (create_unit-linked normal_dir t t' made there free)

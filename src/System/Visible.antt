-- ===== src/System/Visible.antt =====
-- What `setup_system` makes is not hidden by its mounts.
use mathlib.Core.Path.{subst}
use tinyboot.Prelude.{
  ℕ, Bool, true, false, not, ◌&&◌, List, [], ◌∷◌, Option, none, some, if◌then◌else◌, ◌≡◌, refl,
  arith, ap, sym, ◌∙◌, Option-cases, Bool-cases, inl, inr, some-injective, ◌⊎◌,
}
use tinyboot.Result.{Result, ok, err}
use tinyboot.Text.{Text, codes}
use tinyboot.FilePath.{FilePath, append, named, equal_path}
use tinyboot.FilePath.Laws.{equal_path_iff}
use tinyboot.Fs.{
  IoError, Node, file, dir, lookup, insert, create_dirs, create_dir_all, create_new, is_under,
  is_prefix,
}
use tinyboot.Fs.Laws.{lookup-insert}
use tinyboot.Dev.Devices.{DevFile, link, DevTree, unwrap}
use tinyboot.System.Setup.{
  MsFlag, Step, make_dir, mount_at, symlink_at, set_mode, perform, perform_all, setup_steps,
  setup_system, in_dev, proc_fd,
}

-- Nothing that is there is replaced.
abbrev pub KeepsNodes : DevTree → DevTree → Type 0
KeepsNodes t t' = (q : FilePath) (n : Node DevFile) → lookup q t ≡ some n → lookup q t' ≡ some n

insert-KeepsNodes :
    (p : FilePath) (m : Node DevFile) (t : DevTree)
    → lookup p t ≡ none
    → KeepsNodes t (insert p m t)
insert-KeepsNodes p m t free q n there = ground (arith, lookup-insert p q m t, equal_path_iff p q)

Node-cases : (n : Node DevFile) → (n ≡ dir) ⊎ ((f : DevFile) × (n ≡ file f))
Node-cases dir = inl refl
Node-cases (file f) = inr (f, refl)

create_dirs-KeepsNodes :
    (p : FilePath) (ns : List Text) (t : DevTree) → KeepsNodes t (create_dirs p ns t).1
unfolding create_dirs
create_dirs-KeepsNodes p [] t q n there = there
create_dirs-KeepsNodes p (name ∷ ns) t q n there =
    let r : FilePath = append p (named name) in
    elim (Option-cases (lookup r t)) [
      | inl nothing ↦
          rw (nothing, create_dirs)
            (create_dirs-KeepsNodes r ns (insert r dir t) q n
              (insert-KeepsNodes r dir t nothing q n there))
      | inr (m, found) ↦ elim (Node-cases m) [
        | inl is_dir ↦
            rw (found ∙ ap some is_dir, create_dirs) (create_dirs-KeepsNodes r ns t q n there)
        | inr (f, is_file) ↦ rw (found ∙ ap some is_file, create_dirs) there
      ]
    ]

unwrap-some : (r : Result Unit IoError × DevTree) {t' : DevTree} → unwrap r ≡ some t' → r.1 ≡ t'
unwrap-some (ok u, t) h = some-injective h
unwrap-some (err e, t) h = cc

lookup-create_new :
    (p : FilePath) (f : DevFile) (t : DevTree) {t' : DevTree}
    → unwrap (create_new p f t) ≡ some t'
    → (lookup p t ≡ none) × (insert p (file f) t ≡ t')
unfolding create_new
lookup-create_new p f t h = ground arith

-- The step mounts nothing over the path.
abbrev pub uncovers : FilePath → Step → Bool
uncovers q (make_dir p) = true
uncovers q (mount_at p fstype flags) = not (is_under p q)
uncovers q (symlink_at target p) = true
uncovers q (set_mode p mode) = true

abbrev pub all_uncover : FilePath → List Step → Bool
all_uncover q [] = true
all_uncover q (s ∷ ss) = uncovers q s && all_uncover q ss

-- A link that is made at the path, over which nothing is mounted afterwards.
abbrev pub makes_link : FilePath → FilePath → Step → Bool
makes_link target q (make_dir p) = false
makes_link target q (mount_at p fstype flags) = false
makes_link target q (symlink_at target' p) = equal_path target' target && equal_path p q
makes_link target q (set_mode p mode) = false

abbrev pub leaves_link : FilePath → FilePath → List Step → Bool
leaves_link target q [] = false
leaves_link target q (s ∷ ss) =
    let rest = leaves_link target q ss in if makes_link target q s then all_uncover q ss else rest

module _ (mount : FilePath → Text → List MsFlag → DevTree → Option DevTree)
    (set_permissions : FilePath → ℕ → DevTree → Option DevTree)
    (mounts : (p : FilePath) (fstype : Text) (flags : List MsFlag) (t t' : DevTree)
      → mount p fstype flags t ≡ some t'
      → (q : FilePath) → is_under p q ≡ false
      → lookup q t' ≡ lookup q t)
    (keeps : (p : FilePath) (mode : ℕ) (t t' : DevTree)
      → set_permissions p mode t ≡ some t'
      → (q : FilePath) → lookup q t' ≡ lookup q t) where
  perform-keeps :
      (s : Step) (t t' : DevTree) (q : FilePath) (n : Node DevFile)
      → uncovers q s ≡ true
      → perform mount set_permissions s t ≡ some t'
      → lookup q t ≡ some n
      → lookup q t' ≡ some n
  unfolding perform create_dir_all
  perform-keeps (make_dir p) t t' q n free h there =
      subst (λ x. lookup q x ≡ some n) (unwrap-some _ h)
        (create_dirs-KeepsNodes (record { absolute = p.absolute; parts = [] }) p.parts t q n there)
  perform-keeps (mount_at p fstype flags) t t' q n free h there =
      mounts p fstype flags t t' h q (ground arith) ∙ there
  perform-keeps (symlink_at target p) t t' q n free h there =
      let (nothing, same) = lookup-create_new p (link target) t h in
      subst (λ x. lookup q x ≡ some n) same
        (insert-KeepsNodes p (file (link target)) t nothing q n there)
  perform-keeps (set_mode p mode) t t' q n free h there = keeps p mode t t' h q ∙ there

  perform_all-keeps :
      (ss : List Step) (t t' : DevTree) (q : FilePath) (n : Node DevFile)
      → all_uncover q ss ≡ true
      → perform_all mount set_permissions ss t ≡ some t'
      → lookup q t ≡ some n
      → lookup q t' ≡ some n
  unfolding perform_all
  perform_all-keeps [] t t' q n free h there =
      subst (λ x. lookup q x ≡ some n) (some-injective h) there
  perform_all-keeps (s ∷ ss) t t' q n free h there =
      elim (Option-cases (perform mount set_permissions s t)) [
        | inl failed ↦ cc (rw (failed, perform_all) at h)
        | inr (t1, e) ↦
            perform_all-keeps ss t1 t' q n (ground arith) (rw (e, perform_all) at h)
              (perform-keeps s t t1 q n (ground arith) e there)
      ]

  perform-makes :
      (target q : FilePath) (s : Step) (t t' : DevTree)
      → makes_link target q s ≡ true
      → perform mount set_permissions s t ≡ some t'
      → lookup q t' ≡ some (file (link target))
  unfolding perform
  perform-makes target q (make_dir p) t t' made h = cc
  perform-makes target q (mount_at p fstype flags) t t' made h = cc
  perform-makes target q (set_mode p mode) t t' made h = cc
  perform-makes target q (symlink_at target' p) t t' made h =
      let (nothing, same) = lookup-create_new p (link target') t h in
      let here : p ≡ q = (equal_path_iff p q).0 (ground arith) in
      let to_target : target' ≡ target = (equal_path_iff target' target).0 (ground arith) in
      ap (lookup q) (sym same)
      ∙ ground (arith, lookup-insert p q (file (link target')) t, (equal_path_iff p q).1 here)
      ∙ ap (λ x. some (file (link x))) to_target

  leaves_link-lem :
      (target q : FilePath) (ss : List Step) (t t' : DevTree)
      → leaves_link target q ss ≡ true
      → perform_all mount set_permissions ss t ≡ some t'
      → lookup q t' ≡ some (file (link target))
  unfolding perform_all
  leaves_link-lem target q [] t t' left h = cc
  leaves_link-lem target q (s ∷ ss) t t' left h =
      elim (Option-cases (perform mount set_permissions s t)) [
        | inl failed ↦ cc (rw (failed, perform_all) at h)
        | inr (t1, e) ↦
            let rest : perform_all mount set_permissions ss t1 ≡ some t' =
              rw (e, perform_all) at h in
            elim (Bool-cases (makes_link target q s)) [
              | inl made ↦
                  perform_all-keeps ss t1 t' q (file (link target)) (ground arith) rest
                    (perform-makes target q s t t1 made e)
              | inr other ↦ leaves_link-lem target q ss t1 t' (ground arith) rest
            ]
      ]

  -- A setup that returns leaves the links of the standard streams below /dev, where its mounts do not
  -- hide them: if a mount changes nothing outside its directory, and a change of permissions nothing.
  pub setup_system-links :
      (t t' : DevTree)
      → setup_system mount set_permissions t ≡ some t'
      → (lookup (in_dev (codes "stdin")) t' ≡ some (file (link (proc_fd (codes "0")))))
        × (lookup (in_dev (codes "stdout")) t' ≡ some (file (link (proc_fd (codes "1")))))
        × (lookup (in_dev (codes "stderr")) t' ≡ some (file (link (proc_fd (codes "2")))))
  unfolding setup_steps equal_path is_under is_prefix
  setup_system-links t t' h = (
    leaves_link-lem (proc_fd (codes "0")) (in_dev (codes "stdin")) setup_steps t t' refl h,
    leaves_link-lem (proc_fd (codes "1")) (in_dev (codes "stdout")) setup_steps t t' refl h,
    leaves_link-lem (proc_fd (codes "2")) (in_dev (codes "stderr")) setup_steps t t' refl h,
  )

-- ===== src/Dev/Devices/Refines.antt =====
-- The files of devices that are made and removed, against the map of links.
use mathlib.Core.Path.{subst}
use tinyboot.Prelude.{
  ℕ, true, false, [], none, some, if◌then◌else◌, ◌≡◌, refl, arith, sym, ◌∙◌, ap, inl, inr,
  Option-cases,
}
use tinyboot.Result.{ok}
use tinyboot.Text.{Text}
use tinyboot.FilePath.{FilePath, append, parent}
use tinyboot.FilePath.Laws.{from_text-named, parent-append, equal_path_iff}
use tinyboot.Fs.{Node, file, dir, lookup, insert, create_new, create_dir_all, create_dirs}
use tinyboot.Fs.Laws.{lookup-insert}
use tinyboot.Dev.{DevType, EventType, add, remove, change, move, online, offline, bind, unbind}
use tinyboot.Dev.Devices.{
  DevFile, special, special_of, link, DevTree, dev_dir, dev_path, exists, exists_within, add_device,
  remove_device, on_event, handle_device,
}
use tinyboot.Dev.Devices.Links.{Links, target_of, kept}
use tinyboot.Fs.Laws.{create_new-ok}
use tinyboot.Dev.Devices.Kept.{
  IsDevTree, IsDevName, plain_path, Suits, change-IsDevTree, device-Suits,
}
use tinyboot.Dev.Devices.Spec.{added, on_links, Shows, Implements}
use tinyboot.Dev.Devices.Symlinks.{
  add_symlink-Implements, remove_symlink-Shows, remove_file-Shows, create_dir_all-dev,
}

pub dev_path-plain : (name : Text) → IsDevName name → dev_path name ≡ plain_path name
unfolding append
dev_path-plain name h = ap (append dev_dir) (from_text-named name h.is_name)

exists-there :
    (p : FilePath) (t : DevTree) (n : Node DevFile)
    → lookup p t ≡ some n
    → target_of (some n) ≡ none
    → exists p t ≡ true
unfolding exists exists_within
exists-there p t dir e h = rw (e, exists_within)
exists-there p t (file (special kind major minor)) e h = rw (e, exists_within)
exists-there p t (file (link target)) e h = cc

exists-none : (p : FilePath) (t : DevTree) → lookup p t ≡ none → exists p t ≡ false
unfolding exists exists_within
exists-none p t e = rw (e, exists_within)

-- Where no link stands, the file of a device is there already or is made.
made_device :
    (p : FilePath) (f : DevFile) (ls : Links) (t : DevTree)
    → parent p ≡ some dev_dir
    → target_of (some (file f)) ≡ none
    → Suits p (some (file f))
    → ls p ≡ none
    → Shows ls t
    → (t' : DevTree) × ((if exists p t then (ok tt, t) else create_new p f t) ≡ (ok tt, t'))
      × Shows ls t'
made_device p f ls t up plain suits free (k, same) = elim (Option-cases (lookup p t)) [
  | inl e ↦ (
    insert p (file f) t,
    rw (exists-none p t e) (create_new-ok p dev_dir f t e up k.dev),
    (
      change-IsDevTree p (some (file f)) t _ (λ q. lookup-insert p q (file f) t) suits k,
      λ q. ground (arith, same q, lookup-insert p q (file f) t, equal_path_iff p q),
    ),
  )
  | inr (n, e) ↦ (t, rw (exists-there p t n e (sym (ap target_of e) ∙ same p ∙ free)), (k, same))
]

handle_device-plain :
    (event : EventType) (name : Text) (major minor : ℕ) (d : DevType) (t : DevTree)
    → IsDevName name
    → IsDevTree t
    → handle_device event name major minor d t ≡ on_event event name major minor d t
unfolding handle_device parent create_dir_all create_dirs on_event
handle_device-plain event name major minor d t h k =
    rw (dev_path-plain name h, create_dir_all-dev t [] k)

add_device-Implements :
    (name : Text) (major minor : ℕ) (d : DevType) (ls : Links) (t : DevTree)
    → IsDevName name
    → ls (dev_path name) ≡ none
    → Shows ls t
    → Implements (add_device name major minor d t) (added name d ls)
unfolding add_device append
add_device-Implements name major minor d ls t h free s =
    let f : DevFile = special (special_of d) major minor in
    let e : dev_path name ≡ plain_path name = dev_path-plain name h in
    let (t', made_it, s') =
      made_device (dev_path name) f ls t (ap parent e ∙ parent-append dev_dir name) refl
        (subst (λ p. Suits p (some (file f))) (sym e) (device-Suits name _ h)) free s in
    rw made_it (add_symlink-Implements name d ls t' s')

on_event-Implements :
    (event : EventType) (name : Text) (major minor : ℕ) (d : DevType) (ls : Links) (t : DevTree)
    → IsDevName name
    → ls (dev_path name) ≡ none
    → Shows ls t
    → Implements (on_event event name major minor d t) (on_links event name d ls)
unfolding on_event remove_device
on_event-Implements add name major minor d ls t h free s =
    add_device-Implements name major minor d ls t h free s
on_event-Implements remove name major minor d ls t h free s = remove_symlink-Shows name d ls _ (
    remove_file-Shows (dev_path name) ls t
      (subst (λ p. Suits p (kept (lookup (dev_path name) t))) (sym (dev_path-plain name h))
        (device-Suits name _ h))
      s)
on_event-Implements change name major minor d ls t h free s = s
on_event-Implements move name major minor d ls t h free s = s
on_event-Implements online name major minor d ls t h free s = s
on_event-Implements offline name major minor d ls t h free s = s
on_event-Implements bind name major minor d ls t h free s = s
on_event-Implements unbind name major minor d ls t h free s = s

-- An event of a device changes the links of the program as it changes the map of links.
pub handle_device-Implements :
    (event : EventType) (name : Text) (major minor : ℕ) (d : DevType) (ls : Links) (t : DevTree)
    → IsDevName name
    → ls (dev_path name) ≡ none
    → Shows ls t
    → Implements (handle_device event name major minor d t) (on_links event name d ls)
handle_device-Implements event name major minor d ls t h free s =
    rw (handle_device-plain event name major minor d t h s.0)
      (on_event-Implements event name major minor d ls t h free s)

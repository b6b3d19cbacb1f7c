-- ===== src/Dev/Devices/Free.antt =====
-- The paths of devices in /dev stay free of links.
use mathlib.Core.Path.{subst}
use tinyboot.Prelude.{false, Option, none, some, ◌≡◌, arith, sym, inl, inr, Option-cases}
use tinyboot.Text.{Text, equal}
use tinyboot.FilePath.{FilePath, append, equal_path}
use tinyboot.Dev.{
  DevType, disk, partition, character, EventType, add, remove, change, move, online, offline, bind,
  unbind,
}
use tinyboot.Dev.Devices.{dev_path, disk_link, part_link}
use tinyboot.Dev.Devices.Links.{Links}
use tinyboot.Dev.Devices.Kept.{IsDevName, plain_path}
use tinyboot.Dev.Devices.Spec.{drop_link, put_new, put_new-none, put_new-some, on_links}

-- No link comes to stand at the path of a device in /dev.
abbrev pub Keeps : Links → Option Links → Type 0
Keeps ls none = Unit
Keeps ls (some ls') =
    (name : Text) → IsDevName name → ls (plain_path name) ≡ none → ls' (plain_path name) ≡ none

drop_link-none : (p q : FilePath) (ls : Links) → ls q ≡ none → drop_link p ls q ≡ none
drop_link-none p q ls h = ground arith

put_new-Keeps :
    (p target : FilePath) (ls : Links)
    → ((name : Text) → equal_path p (plain_path name) ≡ false)
    → Keeps ls (put_new p target ls)
put_new-Keeps p target ls apart = elim (Option-cases (ls p)) [
  | inl e ↦
      subst (Keeps ls) (sym (put_new-none p target ls e)) (λ name h free. rw (apart name) free)
  | inr (old, e) ↦ subst (Keeps ls) (sym (put_new-some p target ls e)) tt
]

pub on_links-Keeps :
    (event : EventType) (name : Text) (d : DevType) (ls : Links)
    → Keeps ls (on_links event name d ls)
unfolding equal_path equal append
on_links-Keeps add name character ls = λ other h free. free
on_links-Keeps add name (disk n) ls = put_new-Keeps _ _ ls (λ other. ground arith)
on_links-Keeps add name (partition n m) ls = put_new-Keeps _ _ ls (λ other. ground arith)
on_links-Keeps remove name character ls =
    λ other h free. drop_link-none (dev_path name) (plain_path other) ls free
on_links-Keeps remove name (disk n) ls = λ other h free.
    drop_link-none (disk_link n) (plain_path other) (drop_link (dev_path name) ls)
      (drop_link-none (dev_path name) (plain_path other) ls free)
on_links-Keeps remove name (partition n m) ls = λ other h free.
    drop_link-none (part_link n m) (plain_path other) (drop_link (dev_path name) ls)
      (drop_link-none (dev_path name) (plain_path other) ls free)
on_links-Keeps change name d ls = λ other h free. free
on_links-Keeps move name d ls = λ other h free. free
on_links-Keeps online name d ls = λ other h free. free
on_links-Keeps offline name d ls = λ other h free. free
on_links-Keeps bind name d ls = λ other h free. free
on_links-Keeps unbind name d ls = λ other h free. free

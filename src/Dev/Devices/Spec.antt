-- ===== src/Dev/Devices/Spec.antt =====
-- The events of devices as changes of a map of links.
use tinyboot.Prelude.{Option, none, some, if◌then◌else◌, ◌≡◌}
use tinyboot.Text.{Text}
use tinyboot.FilePath.{FilePath, equal_path}
use tinyboot.Dev.{
  DevType, disk, partition, character, EventType, add, remove, change, move, online, offline, bind,
  unbind,
}
use tinyboot.Dev.Devices.{DevTree, dev_path, disk_link, part_link}
use tinyboot.Dev.Devices.Links.{Links, links}
use tinyboot.Dev.Devices.Kept.{IsDevTree}

-- The link of a device, if it has one.
abbrev pub link_path : DevType → Option FilePath
link_path character = none
link_path (disk diskseq) = some (disk_link diskseq)
link_path (partition diskseq partn) = some (part_link diskseq partn)

abbrev pub put : FilePath → FilePath → Links → Links
put p target ls q = if equal_path p q then some target else ls q

abbrev pub drop_link : FilePath → Links → Links
drop_link p ls q = if equal_path p q then none else ls q

-- A link that is there already is not replaced: the program panics.
abbrev pub put_new : FilePath → FilePath → Links → Option Links
put_new p target ls = elim (ls p) [ none ↦ some (put p target ls) | some old ↦ none ]

abbrev pub added : Text → DevType → Links → Option Links
added name d ls = elim (link_path d) [ none ↦ some ls | some p ↦ put_new p (dev_path name) ls ]

abbrev pub removed : Text → DevType → Links → Links
removed name d ls = elim (link_path d) [
  | none ↦ drop_link (dev_path name) ls
  | some p ↦ drop_link p (drop_link (dev_path name) ls)
]

-- What an event of a device does to the links.
abbrev pub on_links : EventType → Text → DevType → Links → Option Links
on_links add name d ls = added name d ls
on_links remove name d ls = some (removed name d ls)
on_links change name d ls = some ls
on_links move name d ls = some ls
on_links online name d ls = some ls
on_links offline name d ls = some ls
on_links bind name d ls = some ls
on_links unbind name d ls = some ls

-- A tree of the right shape, with these links and no others.
abbrev pub Shows : Links → DevTree → Type 0
Shows ls t = IsDevTree t × ((q : FilePath) → links t q ≡ ls q)

-- Both panic, or the tree shows the links.
abbrev pub Implements : Option DevTree → Option Links → Type 0
Implements none none = Unit
Implements none (some ls) = ⊥
Implements (some t) none = ⊥
Implements (some t) (some ls) = Shows ls t

pub Implements-none : {o : Option DevTree} {l : Option Links} → o ≡ none → l ≡ none → Implements o l
Implements-none h k = rw (h, k) tt

pub Implements-some :
    {o : Option DevTree} {l : Option Links} (t : DevTree) (ls : Links)
    → o ≡ some t
    → l ≡ some ls
    → Shows ls t
    → Implements o l
Implements-some t ls h k s = rw (h, k) s

pub put_new-none :
    (p target : FilePath) (ls : Links) → ls p ≡ none → put_new p target ls ≡ some (put p target ls)
put_new-none p target ls h = rw (h, put_new)

pub put_new-some :
    (p target : FilePath) (ls : Links) {old : FilePath}
    → ls p ≡ some old
    → put_new p target ls ≡ none
put_new-some p target ls h = rw (h, put_new)

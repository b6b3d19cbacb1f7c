-- ===== src/Dev/Devices/Run.antt =====
-- The loop over the events of the kernel, against the map of links.
use tinyboot.Prelude.{ℕ, List, [], ◌∷◌, Option, none, some, ◌≡◌, All, ap, ◌∙◌, ◌>>=◌}
use tinyboot.Result.{Result, ok, err}
use tinyboot.Text.{Text}
use tinyboot.Dev.{DevType, EventType, Uevent, UeventError, parse}
use tinyboot.Dev.Devices.{
  DevTree, Listening, sent, handle_uevent, listen_round, listen_and_create_devices,
}
use tinyboot.Dev.Devices.Links.{Links}
use tinyboot.Dev.Devices.Kept.{IsDevName, plain_path}
use tinyboot.Dev.Devices.Spec.{on_links, Shows, Implements}
use tinyboot.Dev.Devices.Free.{Keeps, on_links-Keeps}
use tinyboot.Dev.Devices.Refines.{handle_device-Implements, dev_path-plain}

-- What an event does to the links: one without a name or a number is passed over.
abbrev pub uevent_links : Uevent → Links → Option Links
uevent_links u ls = elim u.devname [
  | none ↦ some ls
  | some name ↦ elim u.major [
    | none ↦ some ls
    | some major ↦ elim u.minor [ none ↦ some ls | some minor ↦ on_links u.event name u.devtype ls ]
  ]
]

abbrev pub result_links : Result Uevent UeventError → Links → Option Links
result_links (err e) ls = some ls
result_links (ok u) ls = uevent_links u ls

-- What a message does to the links: one that cannot be received or read is passed over.
abbrev pub message_links : Option (Option Text) → Links → Option Links
message_links none ls = some ls
message_links (some bytes) ls = result_links (parse bytes) ls

abbrev pub messages_links : List (Option (Option Text)) → Links → Option Links
messages_links [] ls = some ls
messages_links (m ∷ ms) ls = message_links m ls >>= messages_links ms

abbrev pub tree_of : Option Listening → Option DevTree
tree_of none = none
tree_of (some (n, t)) = some t

-- An event of a device that stands in /dev itself, where no link is.
abbrev pub PlainName : Links → Option Text → Type 0
PlainName ls none = Unit
PlainName ls (some name) = IsDevName name × (ls (plain_path name) ≡ none)

abbrev pub PlainResult : Links → Result Uevent UeventError → Type 0
PlainResult ls (err e) = Unit
PlainResult ls (ok u) = PlainName ls u.devname

abbrev pub PlainMessage : Links → Option (Option Text) → Type 0
PlainMessage ls none = Unit
PlainMessage ls (some bytes) = PlainResult ls (parse bytes)

handled :
    (n : ℕ) (o : Option DevTree) (l : Option Links)
    → Implements o l
    → Implements (tree_of (sent n o)) l
handled n none l h = h
handled n (some t) l h = h

handle_fields-Implements :
    (event : EventType) (d : DevType) (devname : Option Text) (major minor : Option ℕ) (n : ℕ)
    (ls : Links) (t : DevTree)
    → PlainName ls devname
    → Shows ls t
    → let u : Uevent = record {
      event = event;
      major = major;
      minor = minor;
      devname = devname;
      devtype = d;
    } in
      Implements (tree_of (handle_uevent u (n, t))) (uevent_links u ls)
unfolding handle_uevent
handle_fields-Implements event d none major minor n ls t h s = s
handle_fields-Implements event d (some name) none minor n ls t h s = s
handle_fields-Implements event d (some name) (some major) none n ls t h s = s
handle_fields-Implements event d (some name) (some major) (some minor) n ls t h s = handled n _ _ (
    handle_device-Implements event name major minor d ls t h.0
      (ap ls (dev_path-plain name h.0) ∙ h.1) s)

listen_round-Implements :
    (m : Option (Option Text)) (n : ℕ) (ls : Links) (t : DevTree)
    → PlainMessage ls m
    → Shows ls t
    → Implements (tree_of (listen_round m (n, t))) (message_links m ls)
unfolding listen_round
listen_round-Implements none n ls t h s = s
listen_round-Implements (some bytes) n ls t h s = by_result (parse bytes) h
  where
    by_result :
        (r : Result Uevent UeventError)
        → PlainResult ls r
        → Implements
            (tree_of (elim r [ err _ ↦ some (n, t) | ok u ↦ handle_uevent u (n, t) ]))
            (result_links r ls)
    by_result (err e) h = s
    by_result (ok u) h =
        handle_fields-Implements u.event u.devtype u.devname u.major u.minor n ls t h s

fields-Keeps :
    (event : EventType) (d : DevType) (devname : Option Text) (major minor : Option ℕ) (ls : Links)
    → let u : Uevent = record {
      event = event;
      major = major;
      minor = minor;
      devname = devname;
      devtype = d;
    } in
      Keeps ls (uevent_links u ls)
fields-Keeps event d none major minor ls = λ other h free. free
fields-Keeps event d (some name) none minor ls = λ other h free. free
fields-Keeps event d (some name) (some major) none ls = λ other h free. free
fields-Keeps event d (some name) (some major) (some minor) ls = on_links-Keeps event name d ls

result-Keeps : (r : Result Uevent UeventError) (ls : Links) → Keeps ls (result_links r ls)
result-Keeps (err e) ls = λ other h free. free
result-Keeps (ok u) ls = fields-Keeps u.event u.devtype u.devname u.major u.minor ls

message-Keeps : (m : Option (Option Text)) (ls : Links) → Keeps ls (message_links m ls)
message-Keeps none ls = λ other h free. free
message-Keeps (some bytes) ls = result-Keeps (parse bytes) ls

PlainResult-Keeps :
    (ls ls' : Links) (r : Result Uevent UeventError)
    → Keeps ls (some ls')
    → PlainResult ls r
    → PlainResult ls' r
PlainResult-Keeps ls ls' (err e) keep h = tt
PlainResult-Keeps ls ls' (ok u) keep h = by_name u.devname h
  where
    by_name : (devname : Option Text) → PlainName ls devname → PlainName ls' devname
    by_name none h = tt
    by_name (some name) h = (h.0, keep name h.0 h.1)

pub All-Keeps :
    (ls ls' : Links) (ms : List (Option (Option Text)))
    → Keeps ls (some ls')
    → All (PlainMessage ls) ms
    → All (PlainMessage ls') ms
All-Keeps ls ls' [] keep h = tt
All-Keeps ls ls' (none ∷ ms) keep h = (tt, All-Keeps ls ls' ms keep h.1)
All-Keeps ls ls' (some bytes ∷ ms) keep h =
    (PlainResult-Keeps ls ls' (parse bytes) keep h.0, All-Keeps ls ls' ms keep h.1)

-- The loop over the messages of the kernel, from a tree of the right shape, changes the symbolic
-- links as the messages change a map of links, and panics where a link that is to be made is in the
-- map already, and only there: if every device that is named stands in /dev itself, where no link is.
pub listen-Implements :
    (ms : List (Option (Option Text))) (n : ℕ) (ls : Links) (t : DevTree)
    → All (PlainMessage ls) ms
    → Shows ls t
    → Implements (tree_of (listen_and_create_devices ms (n, t))) (messages_links ms ls)
unfolding listen_and_create_devices
listen-Implements [] n ls t plain s = s
listen-Implements (m ∷ ms) n ls t plain s =
    go (listen-Implements ms) (listen_round m (n, t)) (message_links m ls)
      (listen_round-Implements m n ls t plain.0 s) (message-Keeps m ls)
  where
    go :
        ((n' : ℕ) (ls' : Links) (t' : DevTree)
          → All (PlainMessage ls') ms
          → Shows ls' t'
          → Implements (tree_of (listen_and_create_devices ms (n', t'))) (messages_links ms ls'))
        → (o : Option Listening) (l : Option Links) → Implements (tree_of o) l
        → Keeps ls l
        → Implements (tree_of (o >>= listen_and_create_devices ms)) (l >>= messages_links ms)
    go rest none none i keep = tt
    go rest none (some ls') i keep = elim i [ ]
    go rest (some s') none i keep = elim i [ ]
    go rest (some (n', t')) (some ls') i keep = rest n' ls' t' (All-Keeps ls ls' ms keep plain.1) i

-- ===== src/BootLoader/Loader.antt =====
-- `Loader` of tboot-loader/src/boot_loader/mod.rs: when the loader behind it is set up, probed and
-- torn down.
pub mod Protocol
pub mod Kept
use tinyboot.Prelude.{Bool, true, false, ◌||◌, List, [], if◌then◌else◌}
use tinyboot.BootLoader.{LoaderType, BootDevice, Platform}

pub data LoaderState : Type 0 where
  unstarted started probed shut_down : LoaderState

-- `matches!(state, Unstarted | Shutdown)`
pub is_down : LoaderState → Bool
is_down unstarted = true
is_down started = false
is_down probed = false
is_down shut_down = true

pub is_probed : LoaderState → Bool
is_probed probed = true
is_probed _ = false

module _ (p : Platform) where
  pub record Loader : Type 0 where
    pub boot_devices : List (BootDevice p.Entry)
    pub state : LoaderState
    pub inner : p.State

  -- `Loader::new` of a new loader.
  unfoldable pub new : p.State → Loader
  new s = record { boot_devices = []; state = unstarted; inner = p.fresh s }

  -- The result is whether the operation succeeded.
  unfoldable pub setup : Bool → Loader → Bool × Loader
  unfolding is_down
  setup force l =
      if force || is_down l.state
      then (let (succeeded, inner) = p.setup l.inner in
          if succeeded
          then (true, record l { inner = inner; state = started })
          else (false, record l { inner = inner }))
      else (true, record l { state = started })

  -- The part of `probe` behind the guard.
  pub probe_inner : Loader → Loader
  probe_inner l =
      let (devices, inner) = p.probe l.inner in
      record { boot_devices = devices; state = probed; inner = inner }

  unfoldable pub probe : Bool → Loader → Bool × Loader
  unfolding setup probe_inner is_probed
  probe force l =
      if force || is_down l.state
      then (let (succeeded, l') = setup force l in
          if succeeded then (true, probe_inner l') else (false, l'))
      else if is_probed l.state
      then (true, l)
      else (true, probe_inner l)

  -- `shutdown`, which is also what `Drop` does.
  unfoldable pub shutdown : Loader → Loader
  unfolding is_down
  shutdown l = record {
    boot_devices = [];
    state = shut_down;
    inner = if is_down l.state then l.inner else p.teardown l.inner;
  }

  -- `boot_devices`: the devices are those of the loader after it, if it succeeded.
  unfoldable pub boot_devices : Loader → Bool × Loader
  unfolding probe
  boot_devices = probe false

  pub loader_type : Loader → LoaderType
  loader_type l = p.loader_type l.inner

-- ===== src/BootLoader/Loader/Kept.antt =====
-- What the loader behind keeps of its state in any use of the loader, and of what it lists.
use tinyboot.Prelude.{Bool, false, List, [], ◌∷◌, ◌||◌, All, Bool-cases, inl, inr}
use tinyboot.BootLoader.{Platform, BootDevice}
use tinyboot.BootLoader.Loader.{
  is_down, is_probed, Loader, new, setup, probe_inner, probe, shutdown, boot_devices,
}
use tinyboot.BootLoader.Loader.Protocol.{
  Op, setup_op, probe_op, shutdown_op, boot_devices_op, traced, perform, perform_all,
}

-- The operations of the loader behind keep the property of its state, and each device that they list
-- has the property of a device.
pub record Keeps (p : Platform) (I : p.State → Type 0) (D : BootDevice p.Entry → Type 0)
    : Type 0 where
  pub fresh : (s : p.State) → I (p.fresh s)
  pub setup : (s : p.State) → I s → I (p.setup s).1
  pub probe : (s : p.State) → I s → I (p.probe s).1 × All D (p.probe s).0
  pub teardown : (s : p.State) → I s → I (p.teardown s)

module _ (p : Platform) (I : p.State → Type 0) (D : BootDevice p.Entry → Type 0)
    (keeps : Keeps p I D) where
  abbrev pub IsKept : Loader p → Type 0
  IsKept l = I l.inner × All D l.boot_devices

  new-IsKept : (s : p.State) → IsKept (new p s)
  unfolding new
  new-IsKept s = (keeps.fresh s, tt)

  setup-IsKept : (force : Bool) (l : Loader p) → IsKept l → IsKept (setup p force l).1
  unfolding setup
  setup-IsKept force l h = elim (Bool-cases (force || is_down l.state)) [
    | inr running ↦ rw (running, setup) h
    | inl wanted ↦ elim (Bool-cases (p.setup l.inner).0) [
      | inl good ↦ rw (wanted, good, setup) (keeps.setup l.inner h.0, h.1)
      | inr bad ↦ rw (wanted, bad, setup) (keeps.setup l.inner h.0, h.1)
    ]
  ]

  probe_inner-IsKept : (l : Loader p) → IsKept l → IsKept (probe_inner p l)
  unfolding probe_inner
  probe_inner-IsKept l h = keeps.probe l.inner h.0

  probe-IsKept : (force : Bool) (l : Loader p) → IsKept l → IsKept (probe p force l).1
  unfolding probe
  probe-IsKept force l h = elim (Bool-cases (force || is_down l.state)) [
    | inl wanted ↦ elim (Bool-cases (p.setup l.inner).0) [
      | inl good ↦
          rw (wanted, good, probe) (keeps.probe (p.setup l.inner).1 (keeps.setup l.inner h.0))
      | inr bad ↦ rw (wanted, bad, probe) (keeps.setup l.inner h.0, h.1)
    ]
    | inr running ↦ elim (Bool-cases (is_probed l.state)) [
      | inl known ↦ rw (running, known, probe) h
      | inr unknown ↦ rw (running, unknown, probe) (probe_inner-IsKept l h)
    ]
  ]

  shutdown-IsKept : (l : Loader p) → IsKept l → IsKept (shutdown p l)
  unfolding shutdown
  shutdown-IsKept l h = elim (Bool-cases (is_down l.state)) [
    | inl released ↦ rw (released, shutdown) (h.0, tt)
    | inr held ↦ rw (held, shutdown) (keeps.teardown l.inner h.0, tt)
  ]

-- Calls that are written down change nothing.
traced-Keeps :
    (p : Platform) (I : p.State → Type 0) (D : BootDevice p.Entry → Type 0)
    → Keeps p I D
    → Keeps (traced p) (λ s. I s.0) D
traced-Keeps p I D keeps = record {
  fresh = λ s. keeps.fresh s.0;
  setup = λ s. keeps.setup s.0;
  probe = λ s. keeps.probe s.0;
  teardown = λ s. keeps.teardown s.0;
}

module _ (p : Platform) (I : p.State → Type 0) (D : BootDevice p.Entry → Type 0)
    (keeps : Keeps p I D) where
  abbrev IsKeptTraced : Loader (traced p) → Type 0
  IsKeptTraced l = IsKept (traced p) (λ s. I s.0) D (traced-Keeps p I D keeps) l

  perform-IsKept : (o : Op) (l : Loader (traced p)) → IsKeptTraced l → IsKeptTraced (perform p o l)
  unfolding perform boot_devices
  perform-IsKept (setup_op force) l h =
      setup-IsKept (traced p) _ D (traced-Keeps p I D keeps) force l h
  perform-IsKept (probe_op force) l h =
      probe-IsKept (traced p) _ D (traced-Keeps p I D keeps) force l h
  perform-IsKept shutdown_op l h = shutdown-IsKept (traced p) _ D (traced-Keeps p I D keeps) l h
  perform-IsKept boot_devices_op l h =
      probe-IsKept (traced p) _ D (traced-Keeps p I D keeps) false l h

  perform_all-IsKept :
      (os : List Op) (l : Loader (traced p)) → IsKeptTraced l → IsKeptTraced (perform_all p os l)
  unfolding perform_all
  perform_all-IsKept [] l h = h
  perform_all-IsKept (o ∷ os) l h = perform_all-IsKept os (perform p o l) (perform-IsKept o l h)

  pub perform_all-new :
      (os : List Op) (s : p.State)
      → let l = perform_all p os (new (traced p) (s, [])) in I l.inner.0 × All D l.boot_devices
  perform_all-new os s =
      perform_all-IsKept os (new (traced p) (s, []))
        (new-IsKept (traced p) _ D (traced-Keeps p I D keeps) (s, []))

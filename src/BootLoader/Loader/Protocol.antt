-- ===== src/BootLoader/Loader/Protocol.antt =====
-- The calls that a loader makes of the one behind it, in any use of it.
use tinyboot.Prelude.{
  Bool, true, false, List, [], ◌∷◌, ◌++◌, Option, none, some, ◌≡◌, refl, arith, ◌>>=◌, ◌∙◌,
  Option-cases, inl, inr,
}
use tinyboot.BootLoader.{Platform}
use tinyboot.BootLoader.Loader.{
  LoaderState, unstarted, started, probed, shut_down, is_down, is_probed, Loader, new, setup,
  probe_inner, probe, shutdown, boot_devices,
}

-- A call of the loader behind, with what `setup` returned.
pub data Call : Type 0 where
  set_up : Bool → Call
  probe_call teardown_call : Call

-- Whether the loader behind is set up.
pub data Phase : Type 0 where
  down up : Phase

-- What a call does, and the calls that must not be made.
abbrev after_call : Phase → Call → Option Phase
after_call ph (set_up true) = some up
after_call ph (set_up false) = some ph
after_call down probe_call = none
after_call up probe_call = some up
after_call down teardown_call = none
after_call up teardown_call = some down

-- The phase after some calls, if all of them were allowed.
unfoldable pub after_calls : Phase → List Call → Option Phase
after_calls ph [] = some ph
after_calls ph (c ∷ cs) = after_call ph c >>= λ ph'. after_calls ph' cs

after_calls-concat :
    (ph : Phase) (cs : List Call) (c : Call)
    → after_calls ph (cs ++ c ∷ []) ≡ (after_calls ph cs >>= λ ph'. after_call ph' c)
unfolding after_calls
after_calls-concat ph [] c = ground arith
after_calls-concat ph (d ∷ cs) c = elim (Option-cases (after_call ph d)) [
  | inl refused ↦ rw refused
  | inr (ph', allowed) ↦ rw allowed (after_calls-concat ph' cs c)
]

-- A platform that writes down its calls.
abbrev pub traced : Platform → Platform
traced p = record {
  State = p.State × List Call;
  Entry = p.Entry;
  fresh = λ s. (p.fresh s.0, s.1);
  loader_type = λ s. p.loader_type s.0;
  setup = λ s. let (succeeded, s') = p.setup s.0 in (succeeded, (s', s.1 ++ set_up succeeded ∷ []));
  probe = λ s. let (devices, s') = p.probe s.0 in (devices, (s', s.1 ++ probe_call ∷ []));
  teardown = λ s. (p.teardown s.0, s.1 ++ teardown_call ∷ []);
  is_default = p.is_default;
  show = p.show;
  select = λ e s. let (parts, s') = p.select e s.0 in (parts, (s', s.1));
}

-- The operations of a loader.
pub data Op : Type 0 where
  setup_op probe_op : Bool → Op
  shutdown_op boot_devices_op : Op

abbrev phase_of : LoaderState → Phase
phase_of unstarted = down
phase_of started = up
phase_of probed = up
phase_of shut_down = down

module _ (p : Platform) where
  unfoldable pub perform : Op → Loader (traced p) → Loader (traced p)
  perform (setup_op force) l = (setup (traced p) force l).1
  perform (probe_op force) l = (probe (traced p) force l).1
  perform shutdown_op l = shutdown (traced p) l
  perform boot_devices_op l = (boot_devices (traced p) l).1

  unfoldable pub perform_all : List Op → Loader (traced p) → Loader (traced p)
  unfolding perform
  perform_all [] l = l
  perform_all (o ∷ os) l = perform_all os (perform o l)

  -- All calls so far were allowed, and the state of the loader says what they left.
  abbrev InProtocol : Loader (traced p) → Type 0
  InProtocol l = after_calls down l.inner.1 ≡ some (phase_of l.state)

  -- A loader that is not set up lists no devices.
  abbrev HidesDevices : Loader (traced p) → Type 0
  HidesDevices l = is_down l.state ≡ true → l.boot_devices ≡ []

  pub record IsSound (l : Loader (traced p)) : Type 0 where
    pub in_protocol : InProtocol l
    pub hides_devices : HidesDevices l

  setup-IsSound :
      (force : Bool) (l : Loader (traced p)) → IsSound l → IsSound (setup (traced p) force l).1
  unfolding setup
  setup-IsSound force l h = ground (
    arith,
    h.in_protocol,
    h.hides_devices,
    after_calls-concat down l.inner.1 (set_up (p.setup l.inner.0).0),
  )

  -- A probe is made when the loader behind is set up.
  probe_inner-IsSound :
      (l : Loader (traced p))
      → IsSound l
      → is_down l.state ≡ false
      → IsSound (probe_inner (traced p) l)
  unfolding probe_inner is_down
  probe_inner-IsSound l h running =
      ground (arith, h.in_protocol, after_calls-concat down l.inner.1 probe_call)

  -- `setup` leaves the loader running where it succeeds.
  setup-running :
      (force : Bool) (l : Loader (traced p))
      → (setup (traced p) force l).0 ≡ true
      → is_down (setup (traced p) force l).1.state ≡ false
  unfolding setup
  setup-running force l h = ground arith

  pub probe-IsSound :
      (force : Bool) (l : Loader (traced p)) → IsSound l → IsSound (probe (traced p) force l).1
  unfolding probe is_probed
  probe-IsSound force l h = ground (
    arith,
    setup-IsSound force l h,
    setup-running force l,
    probe_inner-IsSound (setup (traced p) force l).1,
    probe_inner-IsSound l h,
  )

  pub shutdown-IsSound : (l : Loader (traced p)) → IsSound l → IsSound (shutdown (traced p) l)
  unfolding shutdown is_down
  shutdown-IsSound l h =
      ground (arith, h.in_protocol, after_calls-concat down l.inner.1 teardown_call)

  pub boot_devices-IsSound :
      (l : Loader (traced p)) → IsSound l → IsSound (boot_devices (traced p) l).1
  unfolding boot_devices
  boot_devices-IsSound l h = probe-IsSound false l h

  perform-IsSound : (o : Op) (l : Loader (traced p)) → IsSound l → IsSound (perform o l)
  unfolding perform
  perform-IsSound (setup_op force) l h = setup-IsSound force l h
  perform-IsSound (probe_op force) l h = probe-IsSound force l h
  perform-IsSound shutdown_op l h = shutdown-IsSound l h
  perform-IsSound boot_devices_op l h = boot_devices-IsSound l h

  perform_all-IsSound :
      (os : List Op) (l : Loader (traced p)) → IsSound l → IsSound (perform_all os l)
  unfolding perform_all
  perform_all-IsSound [] l h = h
  perform_all-IsSound (o ∷ os) l h = perform_all-IsSound os (perform o l) (perform-IsSound o l h)

  pub new-IsSound :
      (s : p.State × List Call) → after_calls down s.1 ≡ some down → IsSound (new (traced p) s)
  unfolding new
  new-IsSound s released = record { in_protocol = released; hides_devices = λ e. refl }

  -- In any use of a new loader, and when it is dropped at the end, the loader behind is probed and
  -- torn down only while it is set up, and after the drop it is not set up and no device is listed.
  pub perform_all-shutdown :
      (os : List Op) (s : p.State)
      → let l = shutdown (traced p) (perform_all os (new (traced p) (s, []))) in
        (after_calls down l.inner.1 ≡ some down) × (l.boot_devices ≡ [])
  perform_all-shutdown os s =
      let l : Loader (traced p) = perform_all os (new (traced p) (s, [])) in
      let sound : IsSound (shutdown (traced p) l) = shutdown-IsSound l (
        perform_all-IsSound os (new (traced p) (s, []))
          (new-IsSound (s, []) (unfold after_calls in refl))) in
      (sound.in_protocol ∙ (unfold shutdown in refl), unfold shutdown in refl)

module _ (p : Platform) where
  -- A second `boot_devices` after one that succeeded calls nothing and changes nothing.
  boot_devices_twice :
      (l : Loader p)
      → (boot_devices p l).0 ≡ true
      → boot_devices p (boot_devices p l).1 ≡ (true, (boot_devices p l).1)
  unfolding boot_devices probe setup is_down is_probed probe_inner
  boot_devices_twice l h = ground arith

-- ===== src/Main/Autoboot/Laws.antt =====
-- What the automatic boot does: to a user who is there, and to one who is not.
use mathlib.Core.Path.{subst}
use tinyboot.Prelude.{
  ◌++◌, ap, Bool-cases, inl, inr, ℕ, zero, suc, Bool, true, false, List, [], ◌∷◌, if◌then◌else◌,
  ◌≡◌, refl, arith, All,
}
use tinyboot.BootLoader.{BootDevice, Platform}
use tinyboot.Main.Messages.{user_is_present, command, Received, timeout, message, Host}
use tinyboot.Main.Autoboot.{
  countdown, Auto, user_present, kexec_loaded, kexec_failed, no_entry_booted, default_entry,
  boot_entry, boot_first, autoboot_devices,
}

abbrev is_user : Received → Bool
is_user timeout = false
is_user (message user_is_present) = true
is_user (message (command c)) = false

-- Does the user show up in one of the next `n` ticks?
abbrev shows_up : ℕ → List Received → Bool
shows_up zero rs = false
shows_up (suc n) [] = false
shows_up (suc n) (r ∷ rs) = if is_user r then true else shows_up n rs

countdown-shows_up : (n : ℕ) (rs : List Received) → (countdown n rs).0 ≡ shows_up n rs
unfolding countdown
countdown-shows_up zero rs = refl
countdown-shows_up (suc n) [] = refl
countdown-shows_up (suc n) (timeout ∷ rs) = countdown-shows_up n rs
countdown-shows_up (suc n) (message user_is_present ∷ rs) = refl
countdown-shows_up (suc n) (message (command c) ∷ rs) = countdown-shows_up n rs

module _ (p : Platform) (h : Host p) where
  -- A user who shows up while the first device counts down stops the boot: no entry is selected,
  -- nothing is loaded, and the machine is left as it was.
  autoboot_devices-shows_up :
      (dev : BootDevice p.Entry) (devs : List (BootDevice p.Entry)) (rs : List Received)
      (s : p.State)
      → shows_up dev.timeout rs ≡ true
      → ((autoboot_devices p h (dev ∷ devs) rs s).0 ≡ user_present)
        × ((autoboot_devices p h (dev ∷ devs) rs s).2 ≡ s)
  unfolding autoboot_devices
  autoboot_devices-shows_up dev devs rs s e = ground (arith, countdown-shows_up dev.timeout rs)

  -- The entry of a device that is booted by default: the first one behind the first entry that is
  -- marked as the default, or the first entry if none of those is.
  pub data Chosen (e : p.Entry) : List p.Entry → p.Entry → Type 0 where
    the_first : {es : List p.Entry} → All (λ x. p.is_default x ≡ false) es → Chosen e es e
    the_default :
        {es : List p.Entry} (before : List p.Entry) (x : p.Entry) (after : List p.Entry)
        → es ≡ before ++ x ∷ after
        → All (λ y. p.is_default y ≡ false) before
        → p.is_default x ≡ true
        → Chosen e es x

  Chosen-skip :
      {x : p.Entry} (e y : p.Entry) (es : List p.Entry)
      → p.is_default y ≡ false
      → Chosen e es x
      → Chosen e (y ∷ es) x
  Chosen-skip e y es other (the_first none_other) = the_first (other, none_other)
  Chosen-skip e y es other (the_default before x after e1 none_before marked) =
      the_default (y ∷ before) x after (ap (λ zs. y ∷ zs) e1) (other, none_before) marked

  default_entry-Chosen : (e : p.Entry) (es : List p.Entry) → Chosen e es (default_entry p h e es)
  unfolding default_entry
  default_entry-Chosen e [] = the_first tt
  default_entry-Chosen e (y ∷ es) = elim (Bool-cases (p.is_default y)) [
    | inl marked ↦ rw (marked, default_entry) (the_default [] y es refl tt marked)
    | inr other ↦ rw (other, default_entry) (Chosen-skip e y es other (default_entry-Chosen e es))
  ]

  -- Nobody shows up.
  abbrev Silent : List Received → Type 0
  Silent = All (λ r. is_user r ≡ false)

  countdown-Silent :
      (n : ℕ) (rs : List Received)
      → Silent rs
      → ((countdown n rs).0 ≡ false) × Silent (countdown n rs).1
  unfolding countdown
  countdown-Silent zero rs q = (refl, q)
  countdown-Silent (suc n) [] q = (refl, tt)
  countdown-Silent (suc n) (timeout ∷ rs) q = countdown-Silent n rs q.1
  countdown-Silent (suc n) (message user_is_present ∷ rs) q = cc (q.0)
  countdown-Silent (suc n) (message (command c) ∷ rs) q = countdown-Silent n rs q.1

  abbrev verdict : Bool → Auto
  verdict true = kexec_loaded
  verdict false = kexec_failed

  -- What is selected of an entry is loaded once, and the result is that of the load.
  abbrev pub load : p.Entry → p.State → Auto × p.State
  load x s =
      let (parts, s') = p.select x s in
      let (loaded, s'') = h.kexec_load parts s' in (verdict loaded, s'')

  -- The devices before one that has entries have none, and of that one the entry that is booted by
  -- default is loaded; or no device has an entry, and nothing is done.
  pub data Boots (devs : List (BootDevice p.Entry)) (s : p.State) (r : Auto × p.State)
      : Type 0 where
    nothing : All (λ dev. dev.entries ≡ []) devs → r ≡ (no_entry_booted, s) → Boots devs s r
    loads :
        (before : List (BootDevice p.Entry)) (dev : BootDevice p.Entry)
        (after : List (BootDevice p.Entry)) (e x : p.Entry) (es : List p.Entry)
        → devs ≡ before ++ dev ∷ after
        → All (λ d. d.entries ≡ []) before
        → dev.entries ≡ e ∷ es
        → Chosen e es x
        → r ≡ load x s
        → Boots devs s r

  Boots-skip :
      (dev : BootDevice p.Entry) (devs : List (BootDevice p.Entry)) (s : p.State)
      (r : Auto × p.State)
      → dev.entries ≡ []
      → Boots devs s r
      → Boots (dev ∷ devs) s r
  Boots-skip dev devs s r empty (nothing none_there e) = nothing (empty, none_there) e
  Boots-skip dev devs s r empty (loads before d after e x es are none_before there chosen same) =
      loads (dev ∷ before) d after e x es (ap (λ ds. dev ∷ ds) are) (empty, none_before) there
        chosen same

  boot_first-load :
      (e : p.Entry) (es : List p.Entry) (rs : List Received) (s : p.State)
      → let r = boot_first p h e es rs s in
        ◌≡◌ {A = Auto × p.State} (r.0, r.2) (load (default_entry p h e es) s)
  unfolding boot_first boot_entry
  boot_first-load e es rs s = ground arith

  -- Where nobody shows up the first device that has an entry is booted: of its entries the first one
  -- behind the first that is marked as the default, or else the first, is selected and loaded once,
  -- and the result is that of the load. Without such a device nothing is done.
  pub autoboot_devices-Silent :
      (devs : List (BootDevice p.Entry)) (rs : List Received) (s : p.State)
      → Silent rs
      → let r = autoboot_devices p h devs rs s in Boots devs s (r.0, r.2)
  unfolding autoboot_devices
  autoboot_devices-Silent [] rs s q = nothing tt refl
  autoboot_devices-Silent (dev ∷ devs) rs s q =
      let (quiet, rest) = countdown-Silent dev.timeout rs q in
      go dev.entries refl quiet (autoboot_devices-Silent devs (countdown dev.timeout rs).1 s rest)
    where
      go :
          (es : List p.Entry)
          → dev.entries ≡ es
          → (countdown dev.timeout rs).0 ≡ false
          → (let r = autoboot_devices p h devs (countdown dev.timeout rs).1 s in
              Boots devs s (r.0, r.2))
          → let r = autoboot_devices p h (dev ∷ devs) rs s in Boots (dev ∷ devs) s (r.0, r.2)
      go [] none_there quiet later =
          let r = autoboot_devices p h devs (countdown dev.timeout rs).1 s in
          let r' = autoboot_devices p h (dev ∷ devs) rs s in
          let same : ◌≡◌ {A = Auto × p.State} (r.0, r.2) (r'.0, r'.2) = ground arith in
          subst (Boots (dev ∷ devs) s) same (Boots-skip dev devs s (r.0, r.2) none_there later)
      go (e ∷ es) there quiet later =
          let r' = autoboot_devices p h (dev ∷ devs) rs s in
          let same : ◌≡◌ {A = Auto × p.State} (r'.0, r'.2) (load (default_entry p h e es) s) =
            ground (arith, boot_first-load e es (countdown dev.timeout rs).1 s) in
          loads [] dev devs e (default_entry p h e es) es refl tt there (default_entry-Chosen e es)
            same

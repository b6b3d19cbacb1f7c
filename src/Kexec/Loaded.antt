-- ===== src/Kexec/Loaded.antt =====
-- When an entry is loaded, and with which system call.
use tinyboot.Prelude.{
  ℕ, false, ◌||◌, ◌+◌, ◌≤◌, ◌==◌, List, [], ◌∷◌, ◌++◌, map, Option, none, some, length,
  length-append, ◌≡◌, ◌≢◌, ◌↔◌, refl, arith, ap, sym, ◌∙◌, All, Bool-cases, inl, inr,
}
use tinyboot.Result.{Result, ok, err, Result-cases, >>=-ok}
use tinyboot.Text.{Text, codes, equal}
use tinyboot.Text.Cut.{equal_iff}
use tinyboot.FilePath.{FilePath}
use tinyboot.Fs.{IoError, Fs, lookup}
use tinyboot.BootLoader.{LinuxBootParts}
use tinyboot.Kexec.{
  KexecFileLoad, open_file, encode, bytes, has_nul, c_string, unwrap_or_default, no_initramfs,
  last_result, wait_loaded, initrd_call, load_call, after_call, kexec_load,
}

has_nul-append : (s t : List ℕ) → has_nul (s ++ t) ≡ (has_nul s || has_nul t)
has_nul-append [] t = refl
has_nul-append (c ∷ s) t = ground (arith, has_nul-append s t)

has_nul-encode : (c : ℕ) → has_nul (encode c) ≡ (c == 0)
unfolding encode
has_nul-encode c = ground arith

-- Only the character zero has a byte that is zero.
has_nul-bytes : (s : Text) → has_nul (bytes s) ≡ has_nul s
unfolding bytes
has_nul-bytes [] = refl
has_nul-bytes (c ∷ s) =
    has_nul-append (encode c) (bytes s) ∙ ground (arith, has_nul-encode c, has_nul-bytes s)

-- The file /sys/kernel/kexec_loaded is read until it says so.
pub record IsShown (readings : List (Result Text IoError)) : Type 0 where
  pub before : List Text
  pub after : List (Result Text IoError)
  pub waited : All (λ s. s ≢ codes "1\n") before
  pub shown : readings ≡ map ok before ++ ok (codes "1\n") ∷ after

wait_loaded-IsShown : (rs : List (Result Text IoError)) → wait_loaded rs ≡ some (ok tt) → IsShown rs
unfolding wait_loaded
wait_loaded-IsShown [] h = cc
wait_loaded-IsShown (err e ∷ rs) h = cc
wait_loaded-IsShown (ok s ∷ rs) h = elim (Bool-cases (equal s (codes "1\n"))) [
  | inl same ↦ record {
    before = [];
    after = rs;
    waited = tt;
    shown = ap (λ x. ok x ∷ rs) ((equal_iff s (codes "1\n")).0 same);
  }
  | inr other ↦
      let later : IsShown rs = wait_loaded-IsShown rs (rw (other, wait_loaded) at h) in
      record {
        before = s ∷ later.before;
        after = later.after;
        waited = ((λ e. cc (sym other ∙ (equal_iff s (codes "1\n")).1 e)), later.waited);
        shown = ap (λ x. ok s ∷ x) later.shown;
      }
]

IsShown-wait_loaded :
    (before : List Text) (after : List (Result Text IoError))
    → All (λ s. s ≢ codes "1\n") before
    → wait_loaded (map ok before ++ ok (codes "1\n") ∷ after) ≡ some (ok tt)
unfolding wait_loaded equal
IsShown-wait_loaded [] after h = refl
IsShown-wait_loaded (s ∷ before) after h =
    ground (arith, IsShown-wait_loaded before after h.1, equal_iff s (codes "1\n"), h.0)

-- A node is at the path, if there is a path.
abbrev pub IsThere : Fs → Option FilePath → Type 0
IsThere fs none = Unit
IsThere fs (some p) = lookup p fs ≢ none

abbrev pub flags_of : Option FilePath → ℕ
flags_of none = no_initramfs
flags_of (some initrd) = 0

-- The call that hands the kernel, the initrd and the command line of an entry over as they are.
abbrev pub call_of : LinuxBootParts → KexecFileLoad
call_of parts =
    let line : List ℕ = bytes (unwrap_or_default parts.cmdline) in
    record {
      kernel_fd = parts.linux;
      initrd_fd = parts.initrd;
      cmdline_len = length line + 1;
      cmdline = line ++ 0 ∷ [];
      flags = flags_of parts.initrd;
    }

pub record HasCall (parts : LinuxBootParts) (fs : Fs) : Type 0 where
  pub kernel_there : lookup parts.linux fs ≢ none
  pub initrd_there : IsThere fs parts.initrd
  pub no_nul : has_nul (unwrap_or_default parts.cmdline) ≡ false

open_file-there : (p : FilePath) (fs : Fs) → lookup p fs ≢ none → open_file p fs ≡ ok p
unfolding open_file
open_file-there p fs h = ground arith

open_file-ok :
    (p : FilePath) (fs : Fs) {q : FilePath} → open_file p fs ≡ ok q → (lookup p fs ≢ none) × (p ≡ q)
unfolding open_file
open_file-ok p fs h = ground arith

c_string-ok : (s : Text) {b : List ℕ} → c_string s ≡ ok b → has_nul s ≡ false
unfolding c_string
c_string-ok s h = ground (arith, has_nul-bytes s)

c_string-lem : (s : Text) → has_nul s ≡ false → c_string s ≡ ok (bytes s ++ 0 ∷ [])
unfolding c_string
c_string-lem s h = rw (has_nul-bytes s, h)

initrd_call-there :
    (initrd : Option FilePath) (kernel : FilePath) (line : List ℕ) (fs : Fs)
    → IsThere fs initrd
    → initrd_call initrd kernel line fs
      ≡ ok (record {
        kernel_fd = kernel;
        initrd_fd = initrd;
        cmdline_len = length line;
        cmdline = line;
        flags = flags_of initrd;
      })
unfolding initrd_call
initrd_call-there none kernel line fs h = refl
initrd_call-there (some p) kernel line fs h = rw (open_file-there p fs h)

initrd_call-ok :
    (initrd : Option FilePath) (kernel : FilePath) (line : List ℕ) (fs : Fs) {call : KexecFileLoad}
    → initrd_call initrd kernel line fs ≡ ok call
    → IsThere fs initrd
unfolding initrd_call
initrd_call-ok none kernel line fs h = tt
initrd_call-ok (some p) kernel line fs h =
    let (q, opened, rest) = >>=-ok (open_file p fs) _ h in (open_file-ok p fs opened).0

load_call-HasCall :
    (parts : LinuxBootParts) (fs : Fs) → HasCall parts fs → load_call parts fs ≡ ok (call_of parts)
unfolding load_call
load_call-HasCall parts fs h =
    let line : List ℕ = bytes (unwrap_or_default parts.cmdline) in
    rw (
      open_file-there parts.linux fs h.kernel_there,
      c_string-lem (unwrap_or_default parts.cmdline) h.no_nul,
      initrd_call-there parts.initrd parts.linux (line ++ 0 ∷ []) fs h.initrd_there,
      length-append line (0 ∷ []),
    )

HasCall-load_call :
    (parts : LinuxBootParts) (fs : Fs) {call : KexecFileLoad}
    → load_call parts fs ≡ ok call
    → HasCall parts fs
unfolding load_call
HasCall-load_call parts fs h =
    let (kernel, opened, h1) = >>=-ok (open_file parts.linux fs) _ h in
    let (line, cmdline, h2) = >>=-ok (c_string (unwrap_or_default parts.cmdline)) _ h1 in
    record {
      kernel_there = (open_file-ok parts.linux fs opened).0;
      initrd_there = initrd_call-ok parts.initrd kernel line fs h2;
      no_nul = c_string-ok (unwrap_or_default parts.cmdline) cmdline;
    }

-- The system call is made with the call of the entry, it succeeds, and the kernel says that it has
-- loaded what it was given.
pub record IsLoaded (kexec_file_load : KexecFileLoad → Result ℕ ℕ) (parts : LinuxBootParts)
    (fs : Fs) (readings : List (Result Text IoError)) : Type 0 where
  pub has_call : HasCall parts fs
  pub retval : ℕ
  pub accepted : kexec_file_load (call_of parts) ≡ ok retval
  pub is_success : retval ≤ last_result
  pub is_shown : IsShown readings

after_call-ok :
    (r : Result ℕ ℕ) (rs : List (Result Text IoError))
    → after_call r rs ≡ some (ok tt)
    → (n : ℕ) × (r ≡ ok n) × (n ≤ last_result) × (wait_loaded rs ≡ some (ok tt))
unfolding after_call
after_call-ok (err code) rs h = cc
after_call-ok (ok n) rs h = (n, refl, ground arith, ground arith)

call-after_call :
    (n : ℕ) (rs : List (Result Text IoError))
    → n ≤ last_result
    → after_call (ok n) rs ≡ wait_loaded rs
unfolding after_call
call-after_call n rs h = ground arith

module _ (kexec_file_load : KexecFileLoad → Result ℕ ℕ) (parts : LinuxBootParts) (fs : Fs)
    (readings : List (Result Text IoError)) where
  -- The load of an entry succeeds just if its kernel and its initrd are there, the command line holds
  -- no zero, the system call succeeds that is given those files, the command line in UTF-8 with a
  -- zero at its end and its length, and the flag of a missing initrd just where there is none, and
  -- the kernel says that it is loaded, at the first such answer.
  pub kexec_load_iff :
      (kexec_load kexec_file_load parts fs readings ≡ some (ok tt))
      ↔ IsLoaded kexec_file_load parts fs readings
  unfolding kexec_load
  kexec_load_iff = (to, from)
    where
      to :
          kexec_load kexec_file_load parts fs readings ≡ some (ok tt)
          → IsLoaded kexec_file_load parts fs readings
      to h = elim (Result-cases (load_call parts fs)) [
        | inr (e, failed) ↦ cc (rw (failed, kexec_load) at h)
        | inl (call, called) ↦
            let there : HasCall parts fs = HasCall-load_call parts fs called in
            let (n, accepted, fits, waited) =
              after_call-ok (kexec_file_load (call_of parts)) readings
                (rw (load_call-HasCall parts fs there, kexec_load) at h) in
            record {
              has_call = there;
              retval = n;
              accepted = accepted;
              is_success = fits;
              is_shown = wait_loaded-IsShown readings waited;
            }
      ]

      from :
          IsLoaded kexec_file_load parts fs readings
          → kexec_load kexec_file_load parts fs readings ≡ some (ok tt)
      from l =
          rw (load_call-HasCall parts fs l.has_call, kexec_load, l.accepted)
            (call-after_call l.retval readings l.is_success
              ∙ ap wait_loaded l.is_shown.shown
              ∙ IsShown-wait_loaded l.is_shown.before l.is_shown.after l.is_shown.waited)

-- ===== src/Keys/Guarded.antt =====
-- The policy is installed only where the key is.
use mathlib.Core.Path.{subst}
use tinyboot.Text.{codes, equal, split, split_onto}
use tinyboot.FilePath.{from_text, components, is_absolute}
use tinyboot.Prelude.{
  none, ap, sym, ◌∙◌, ℕ, Option, some, ltb, if◌then◌else◌, ◌≡◌, refl, ap, ◌∙◌, inl, inr,
  Option-cases, Bool-cases, ◌⊎◌,
}
use tinyboot.Result.{Result, ok, err, Result-cases}
use tinyboot.Text.{Text}
use tinyboot.FilePath.{FilePath, equal_path}
use tinyboot.Fs.{IoError, file, Fs, lookup, write, read_to_string}
use tinyboot.Fs.Laws.{write-ok, write-err}
use tinyboot.Keys.{
  user_keyring, serial, AddKey, KeyError, os, out_of_range, no_public_key, Features, i32_max,
  policy_conf, policy_path, find_pubkey, to_i32, keyring_call, key_call, ima_keyring_name, io_error,
  install_policy, add_keyring, add_key, after_key, after_keyring, load_verification_key,
}
use tinyboot.Keys.Pubkey.{read-lookup, PubkeyFound, find_pubkey-PubkeyFound}

-- The path holds the text, and all else is as it was.
abbrev pub Holds : FilePath → Text → Fs → Fs → Type 0
Holds p s fs fs' =
    (q : FilePath) → lookup q fs' ≡ (if equal_path p q then some (file s) else lookup q fs)

io_error-ok :
    (r : Result Unit IoError × Fs) → (io_error r).0 ≡ ok tt → (r.0 ≡ ok tt) × ((io_error r).1 ≡ r.1)
io_error-ok (ok done, fs) h = (refl, refl)
io_error-ok (err e, fs) h = cc

io_error-err :
    (r : Result Unit IoError × Fs) {e : KeyError}
    → (io_error r).0 ≡ err e
    → (x : IoError) × (r.0 ≡ err x) × ((io_error r).1 ≡ r.1)
io_error-err (ok done, fs) h = cc
io_error-err (err x, fs) h = (x, refl, refl)

install_policy-ok :
    (fs : Fs)
    → (install_policy fs).0 ≡ ok tt
    → (policy : Text) × (read_to_string policy_conf fs ≡ ok policy)
      × Holds policy_path policy fs (install_policy fs).1
unfolding install_policy
install_policy-ok fs h = elim (Result-cases (read_to_string policy_conf fs)) [
  | inl (policy, found) ↦
      let (written, same) =
        io_error-ok (write policy_path policy fs) (rw (found, install_policy) at h) in
      (
        policy,
        found,
        λ q.
            rw (found, install_policy)
              (ap (lookup q) same ∙ write-ok policy_path policy fs written q),
      )
  | inr (e, failed) ↦ cc (rw (failed, install_policy) at h)
]

install_policy-err :
    (fs : Fs) {e : KeyError} → (install_policy fs).0 ≡ err e → (install_policy fs).1 ≡ fs
unfolding install_policy
install_policy-err fs h = elim (Result-cases (read_to_string policy_conf fs)) [
  | inl (policy, found) ↦
      let (x, failed, same) =
        io_error-err (write policy_path policy fs) (rw (found, install_policy) at h) in
      rw (found, install_policy) (same ∙ write-err policy_path policy fs failed)
  | inr (e, failed) ↦ rw (failed, install_policy)
]

policy_conf-text : policy_conf ≡ from_text (codes "/etc/ima/policy.conf")
unfolding from_text components is_absolute split split_onto equal
policy_conf-text = refl

policy_path-text : policy_path ≡ from_text (codes "/sys/kernel/security/ima/policy")
unfolding from_text components is_absolute split split_onto equal
policy_path-text = refl

module _ {K : Type 0} (sys_add_key : AddKey → K → Result ℕ ℕ × K) (decode : Text → Option Text)
    (features : Features) (fs : Fs) (k : K) where
  -- A key was found; the kernel made the keyring `_ima` and took the key into it; and then the policy
  -- was written, and nothing else.
  pub record IsVerified (fs' : Fs) (k' : K) : Type 0 where
    pub pubkey : Text
    pub keyring_id : ℕ
    pub key_id : ℕ
    pub between : K
    pub policy : Text
    pub found : PubkeyFound decode features fs pubkey
    pub made :
        sys_add_key
          (record {
            key_type = codes "keyring";
            description = some (codes "_ima");
            payload = none;
            keyring = user_keyring;
          })
          k
        ≡ (ok keyring_id, between)
    pub added :
        sys_add_key
          (record {
            key_type = codes "asymmetric";
            description = none;
            payload = some pubkey;
            keyring = serial keyring_id;
          })
          between
        ≡ (ok key_id, k')
    pub read : lookup (from_text (codes "/etc/ima/policy.conf")) fs ≡ some (file policy)
    pub written : Holds (from_text (codes "/sys/kernel/security/ima/policy")) policy fs fs'

  -- Either the key is there and the policy is installed behind it, or no file has changed.
  abbrev pub IsGuarded : Result (Unit {0}) KeyError × Fs × K → Type 0
  IsGuarded (r, fs', k') =
      ((r ≡ ok tt) × IsVerified fs' k') ⊎ ((e : KeyError) × (r ≡ err e) × (fs' ≡ fs))

  key-IsGuarded :
      (pubkey : Text) (keyring_id : ℕ) (between : K)
      → find_pubkey decode features fs ≡ some pubkey
      → sys_add_key (keyring_call ima_keyring_name) k ≡ (ok keyring_id, between)
      → IsGuarded (after_key sys_add_key fs (add_key sys_add_key keyring_id pubkey between))
  unfolding add_key
  key-IsGuarded pubkey keyring_id between found made =
      by_answer (sys_add_key (key_call keyring_id pubkey) between) refl
    where
      by_answer :
          (x : Result ℕ ℕ × K)
          → sys_add_key (key_call keyring_id pubkey) between ≡ x
          → IsGuarded (after_key sys_add_key fs (to_i32 x.0, x.1))
      by_answer (err code, k') e = inr (os code, refl, refl)
      by_answer (ok key_id, k') e = elim (Bool-cases (ltb i32_max key_id)) [
        | inl above ↦ rw above (inr (out_of_range, refl, refl))
        | inr fits ↦ rw fits (elim (Result-cases (install_policy fs).0) [
          | inl (done, installed) ↦
              let (policy, read, written) = install_policy-ok fs installed in
              inl (
                installed,
                record {
                  pubkey = pubkey;
                  keyring_id = keyring_id;
                  key_id = key_id;
                  between = between;
                  policy = policy;
                  found = find_pubkey-PubkeyFound decode features fs found;
                  made = made;
                  added = e;
                  read =
                      ap (λ p. lookup p fs) (sym policy_conf-text)
                      ∙ read-lookup policy_conf fs read;
                  written =
                      subst (λ p. Holds p policy fs (install_policy fs).1) policy_path-text written;
                },
              )
          | inr (x, failed) ↦ inr (x, failed, install_policy-err fs failed)
        ])
      ]

  keyring-IsGuarded :
      (pubkey : Text)
      → find_pubkey decode features fs ≡ some pubkey
      → IsGuarded (after_keyring sys_add_key pubkey fs (add_keyring sys_add_key ima_keyring_name k))
  unfolding add_keyring
  keyring-IsGuarded pubkey found = by_answer (sys_add_key (keyring_call ima_keyring_name) k) refl
    where
      by_answer :
          (x : Result ℕ ℕ × K)
          → sys_add_key (keyring_call ima_keyring_name) k ≡ x
          → IsGuarded (after_keyring sys_add_key pubkey fs (to_i32 x.0, x.1))
      by_answer (err code, k') e = inr (os code, refl, refl)
      by_answer (ok keyring_id, k') e = elim (Bool-cases (ltb i32_max keyring_id)) [
        | inl above ↦ rw above (inr (out_of_range, refl, refl))
        | inr fits ↦ rw fits (key-IsGuarded pubkey keyring_id k' found e)
      ]

  -- The policy is never installed without the key: either a key was found, the kernel made the
  -- keyring `_ima` and took the key into it, and the policy was written and nothing else; or the
  -- result is an error, and no file has changed.
  pub load_verification_key-IsGuarded :
      IsGuarded (load_verification_key sys_add_key decode features fs k)
  unfolding load_verification_key
  load_verification_key-IsGuarded = elim (Option-cases (find_pubkey decode features fs)) [
    | inl nothing ↦ rw (nothing, load_verification_key) (inr (no_public_key, refl, refl))
    | inr (pubkey, found) ↦ rw (found, load_verification_key) (keyring-IsGuarded pubkey found)
  ]

-- ===== src/Config/First.antt =====
-- Which arguments count.
use tinyboot.Prelude.{
  List, [], ◌∷◌, ◌++◌, append_assoc, append-nil, Option, none, some, if◌then◌else◌, first, ◌≡◌,
  refl, arith, ◌∙◌, sym, ap, Bool-cases, Option-cases, inl, inr,
}
use tinyboot.Text.{Text, codes, equal}
use tinyboot.Text.Cut.{equal_iff}
use tinyboot.Config.{
  arg_pair, ValueMap, push_value, collect_args, values_at, first_of, from_args, set_log_level,
  set_tty, set_programmer, default,
}

-- The values that the arguments give a key.
abbrev pub values_of : Text → List Text → List Text
values_of k [] = []
values_of k (arg ∷ args) =
    let rest = values_of k args in
    elim (arg_pair arg) [ none ↦ rest | some (key, v) ↦ if equal key k then v ∷ rest else rest ]

-- More values behind those that are there.
abbrev joined : Option (List Text) → List Text → Option (List Text)
joined none [] = none
joined none (v ∷ vs) = some (v ∷ vs)
joined (some xs) vs = some (xs ++ vs)

joined-cons :
    (r : Option (List Text)) (v : Text) (vs : List Text)
    → joined (joined r (v ∷ [])) vs ≡ joined r (v ∷ vs)
joined-cons none v vs = refl
joined-cons (some xs) v vs = ap some (append_assoc xs (v ∷ []) vs)

joined-nil : (r : Option (List Text)) → joined r [] ≡ r
joined-nil none = refl
joined-nil (some xs) = ap some (append-nil xs)

values_at-push_value :
    (k key v : Text) (map : ValueMap)
    → values_at k (push_value key v map)
      ≡ (if equal key k then joined (values_at k map) (v ∷ []) else values_at k map)
unfolding values_at push_value
values_at-push_value k key v [] = ground arith
values_at-push_value k key v ((other, existing) ∷ map) = ground (
  arith,
  values_at-push_value k key v map,
  equal_iff other key,
  equal_iff other k,
  equal_iff key k,
)

values_at-collect_args :
    (k : Text) (args : List Text) (map : ValueMap)
    → values_at k (collect_args args map) ≡ joined (values_at k map) (values_of k args)
unfolding collect_args
values_at-collect_args k [] map = sym (joined-nil (values_at k map))
values_at-collect_args k (arg ∷ args) map = elim (Option-cases (arg_pair arg)) [
  | inl other ↦ rw (other, collect_args, values_of) (values_at-collect_args k args map)
  | inr ((key, v), there) ↦
      let rest = values_at-collect_args k args (push_value key v map) in
      elim (Bool-cases (equal key k)) [
        | inl hit ↦
            let now : values_at k (push_value key v map) ≡ joined (values_at k map) (v ∷ []) =
              values_at-push_value k key v map ∙ rw hit in
            rw (there, hit, collect_args, values_of)
              (rest
                ∙ ap (λ (r : Option (List Text)). joined r (values_of k args)) now
                ∙ joined-cons (values_at k map) v (values_of k args))
        | inr miss ↦
            let now : values_at k (push_value key v map) ≡ values_at k map =
              values_at-push_value k key v map ∙ rw miss in
            rw (there, miss, collect_args, values_of)
              (rest ∙ ap (λ (r : Option (List Text)). joined r (values_of k args)) now)
      ]
]

first_of-joined : (vs : List Text) → first_of (joined none vs) ≡ first vs
first_of-joined [] = refl
first_of-joined (v ∷ vs) = refl

first_of-collect_args :
    (k : Text) (args : List Text)
    → first_of (values_at k (collect_args args [])) ≡ first (values_of k args)
unfolding values_at
first_of-collect_args k args =
    ap first_of (values_at-collect_args k args []) ∙ first_of-joined (values_of k args)

module _ (Level : Type 0) (info : Level) (level_from_str : Text → Option Level) where
  -- The value that is used, or else the default.
  abbrev pub or_default {ℓ} : {A : Type ℓ} → Option A → A → A
  or_default none d = d
  or_default (some a) d = a

  abbrev pub read_level : Option Text → Option Level
  read_level none = none
  read_level (some s) = level_from_str s

  -- The fields after the three tests.
  set-fields :
      (programmer tty level : Option Text)
      → let cfg = set_programmer Level info level_from_str programmer (
          set_tty Level info level_from_str tty
            (set_log_level Level info level_from_str level (default Level info level_from_str))) in
        (cfg.tty ≡ or_default tty (codes "tty1"))
        × (cfg.programmer ≡ or_default programmer (codes "internal"))
        × (cfg.log_level ≡ or_default (read_level level) info)
  unfolding set_programmer set_tty set_log_level
  set-fields programmer tty level = ground arith

  -- Of a key that is given more than once the first value counts, also where it is no log level; the
  -- other keys do not matter, nor their order.
  pub from_args-first :
      (args : List Text)
      → let cfg = from_args Level info level_from_str args in
        (cfg.tty ≡ or_default (first (values_of (codes "tty") args)) (codes "tty1"))
        × (cfg.programmer
            ≡ or_default (first (values_of (codes "programmer") args)) (codes "internal"))
        × (cfg.log_level ≡ or_default (read_level (first (values_of (codes "loglevel") args))) info)
  unfolding from_args set_log_level set_tty set_programmer
  from_args-first args =
      let found = λ (k : Text). first_of (values_at k (collect_args args [])) in
      let fields =
        set-fields (found (codes "programmer")) (found (codes "tty")) (found (codes "loglevel")) in
      (
        fields.0
            ∙ ap (λ (o : Option Text). or_default o (codes "tty1"))
                (first_of-collect_args (codes "tty") args),
        fields.1
            ∙ ap (λ (o : Option Text). or_default o (codes "internal"))
                (first_of-collect_args (codes "programmer") args),
        fields.2
            ∙ ap (λ (o : Option Text). or_default (read_level o) info)
                (first_of-collect_args (codes "loglevel") args),
      )

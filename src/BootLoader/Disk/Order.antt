-- ===== src/BootLoader/Disk/Order.antt =====
-- The order of the entries of a disk, and what a sort keeps of a list of them.
use tinyboot.Prelude.{
  true, false, List, [], ◌∷◌, ◌++◌, Option, none, some, ◌≡◌, refl, arith, All, All-append,
  Bool-cases, inl, inr,
}
use tinyboot.Text.{Text, equal}
use tinyboot.BootLoader.Entry.{BlsEntry}
use tinyboot.BootLoader.Disk.{less, less_option, goes_before, insert_entry, sort_entries, has_name}

less_asym : (s t : Text) → less s t ≡ true → less t s ≡ false
unfolding less
less_asym [] [] h = refl
less_asym [] (d ∷ t) h = refl
less_asym (c ∷ s) [] h = cc
less_asym (c ∷ s) (d ∷ t) h = ground (arith, less_asym s t)

less_option_asym : (s t : Option Text) → less_option s t ≡ true → less_option t s ≡ false
less_option_asym none none h = refl
less_option_asym none (some t) h = refl
less_option_asym (some s) none h = cc
less_option_asym (some s) (some t) h = less_asym s t h

-- Of two entries one goes before the other.
goes_before_total : (a b : BlsEntry) → goes_before a b ≡ false → goes_before b a ≡ true
unfolding goes_before
goes_before_total a b h = ground (
  arith,
  less_option_asym a.version b.version,
  less_option_asym b.title a.title,
  less_asym b.name a.name,
)

abbrev pub Sorted : List BlsEntry → Type 0
Sorted [] = Unit
Sorted (a ∷ []) = Unit
Sorted (a ∷ b ∷ es) = (goes_before a b ≡ true) × Sorted (b ∷ es)

Sorted-insert_behind :
    (y x : BlsEntry) (ys : List BlsEntry)
    → goes_before y x ≡ true
    → Sorted (y ∷ ys)
    → Sorted (y ∷ insert_entry x ys)
unfolding insert_entry
Sorted-insert_behind y x [] h s = (h, tt)
Sorted-insert_behind y x (z ∷ zs) h s = elim (Bool-cases (goes_before x z)) [
  | inl before ↦ rw (before, insert_entry) (h, (before, s.1))
  | inr behind ↦
      rw (behind, insert_entry)
        (s.0, Sorted-insert_behind z x zs (goes_before_total x z behind) s.1)
]

Sorted-insert_entry : (x : BlsEntry) (ys : List BlsEntry) → Sorted ys → Sorted (insert_entry x ys)
unfolding insert_entry
Sorted-insert_entry x [] s = tt
Sorted-insert_entry x (y ∷ ys) s = elim (Bool-cases (goes_before x y)) [
  | inl before ↦ rw (before, insert_entry) (before, s)
  | inr behind ↦
      rw (behind, insert_entry) (Sorted-insert_behind y x ys (goes_before_total x y behind) s)
]

pub Sorted-sort_entries : (es : List BlsEntry) → Sorted (sort_entries es)
unfolding sort_entries
Sorted-sort_entries [] = tt
Sorted-sort_entries (e ∷ es) = Sorted-insert_entry e (sort_entries es) (Sorted-sort_entries es)

module _ (P : BlsEntry → Type 0) where
  All-insert_entry :
      (x : BlsEntry) (ys : List BlsEntry) → P x → All P ys → All P (insert_entry x ys)
  unfolding insert_entry
  All-insert_entry x [] h hs = (h, tt)
  All-insert_entry x (y ∷ ys) h hs = elim (Bool-cases (goes_before x y)) [
    | inl before ↦ rw (before, insert_entry) (h, hs)
    | inr behind ↦ rw (behind, insert_entry) (hs.0, All-insert_entry x ys h hs.1)
  ]

  pub All-sort_entries : (es : List BlsEntry) → All P es → All P (sort_entries es)
  unfolding sort_entries
  All-sort_entries [] hs = tt
  All-sort_entries (e ∷ es) hs =
      All-insert_entry e (sort_entries es) hs.0 (All-sort_entries es hs.1)

equal_sym : (s t : Text) → equal s t ≡ false → equal t s ≡ false
unfolding equal
equal_sym [] [] h = h
equal_sym [] (d ∷ t) h = refl
equal_sym (c ∷ s) [] h = refl
equal_sym (c ∷ s) (d ∷ t) h = ground (arith, equal_sym s t)

-- Another name than that of the entry.
abbrev Differs : BlsEntry → BlsEntry → Type 0
Differs e d = equal e.name d.name ≡ false

abbrev pub Distinct : List BlsEntry → Type 0
Distinct [] = Unit
Distinct (e ∷ es) = All (λ d. equal e.name d.name ≡ false) es × Distinct es

Distinct-insert_entry :
    (x : BlsEntry) (ys : List BlsEntry)
    → All (Differs x) ys
    → Distinct ys
    → Distinct (insert_entry x ys)
unfolding insert_entry
Distinct-insert_entry x [] h s = (tt, tt)
Distinct-insert_entry x (y ∷ ys) h s = elim (Bool-cases (goes_before x y)) [
  | inl before ↦ rw (before, insert_entry) (h, s)
  | inr behind ↦
      rw (behind, insert_entry)
        (
          All-insert_entry (Differs y) x ys (equal_sym x.name y.name h.0) s.0,
          Distinct-insert_entry x ys h.1 s.1,
        )
]

pub Distinct-sort_entries : (es : List BlsEntry) → Distinct es → Distinct (sort_entries es)
unfolding sort_entries
Distinct-sort_entries [] s = tt
Distinct-sort_entries (e ∷ es) s =
    Distinct-insert_entry e (sort_entries es) (All-sort_entries (Differs e) es s.0)
      (Distinct-sort_entries es s.1)

pub Distinct-concat :
    (es : List BlsEntry) (e : BlsEntry)
    → has_name e.name es ≡ false
    → Distinct es
    → Distinct (es ++ e ∷ [])
unfolding has_name
Distinct-concat [] e h s = (tt, tt)
Distinct-concat (x ∷ es) e h s =
    let here : Differs x e = ground arith in
    let later : has_name e.name es ≡ false = ground arith in
    (All-append (Differs x) es (e ∷ []) s.0 (here, tt), Distinct-concat es e later s.1)

-- ===== src/Main/Commands/Laws.antt =====
-- What the command loop sends, what it selects, and when it ends.
use mathlib.Core.Path.{subst}
use tinyboot.Prelude.{
  ℕ, zero, suc, ◌+◌, ◌≤◌, List, [], ◌∷◌, ◌++◌, append_assoc, Option, none, some, get_elem?,
  replicate, length, ◌≡◌, refl, arith, ◌∙◌, ap, sym, inl, inr, ◌⊎◌, some-injective,
}
use tinyboot.BootLoader.{BootDevice, Platform}
use tinyboot.Main.Messages.{ClientToServer, ServerToClient, server_is_ready, stop, Outcome, Host}
use tinyboot.Main.Commands.{
  Line, device, entry, Current, at_index, select_entry, entry_lines, device_lines, drop_current,
  Step, continue, finish, handle, handle_commands,
}

shift : (n j : ℕ) → n + 1 + j ≡ n + suc j
shift n j = omega arith

plus_zero : (n : ℕ) → n ≡ n + 0
plus_zero n = omega arith

one_plus : (n : ℕ) → 1 + n ≡ suc n
one_plus n = omega arith

module _ (p : Platform) (h : Host p) where
  -- The result of the command loop.
  abbrev Handled : Type 0
  Handled = List ServerToClient × Option Outcome × Current p h

  pub handle_commands-finish :
      (m : ClientToServer) (ms : List ClientToServer) (c : Current p h) {lines : List Line}
      {o : Outcome} {c' : Current p h}
      → handle p h m c ≡ finish lines o c'
      → handle_commands p h (m ∷ ms) c ≡ (server_is_ready ∷ stop ∷ [], some o, drop_current p h c')
  unfolding handle_commands
  handle_commands-finish m ms c e = rw (e, handle_commands)

  pub handle_commands-continue :
      (m : ClientToServer) (ms : List ClientToServer) (c : Current p h) {lines : List Line}
      {c' : Current p h}
      → handle p h m c ≡ continue lines c'
      → handle_commands p h (m ∷ ms) c ≡ (
        server_is_ready ∷ (handle_commands p h ms c').0,
        (handle_commands p h ms c').1,
        (handle_commands p h ms c').2,
      )
  unfolding handle_commands
  handle_commands-continue m ms c e = rw (e, handle_commands)

  pub Step-cases :
      (st : Step p h)
      → ((lines : List Line) × (c : Current p h) × (st ≡ continue lines c))
        ⊎ ((lines : List Line) × (o : Outcome) × (c : Current p h) × (st ≡ finish lines o c))
  Step-cases (continue lines c) = inl (lines, c, refl)
  Step-cases (finish lines o c) = inr (lines, o, c, refl)

  -- What was sent: the loop waits for the next message, or ended with an outcome after some of them.
  pub data Answered (ms : List ClientToServer) (r : Handled) : Type 0 where
    waiting : r.1 ≡ none → r.0 ≡ replicate (suc (length ms)) server_is_ready → Answered ms r
    stopped :
        (taken : ℕ) (o : Outcome)
        → r.1 ≡ some o
        → (1 ≤ taken) × (taken ≤ length ms)
        → r.0 ≡ replicate taken server_is_ready ++ stop ∷ []
        → Answered ms r

  Answered-continue :
      (m : ClientToServer) (ms : List ClientToServer) (r : Handled)
      → Answered ms r
      → Answered (m ∷ ms) (server_is_ready ∷ r.0, r.1, r.2)
  Answered-continue m ms r (waiting unended sent) =
      waiting unended (ap (λ (xs : List ServerToClient). server_is_ready ∷ xs) sent)
  Answered-continue m ms r (stopped taken o ended some_taken sent) =
      stopped (suc taken) o ended (omega arith, omega (arith, some_taken.1))
        (ap (λ (xs : List ServerToClient). server_is_ready ∷ xs) sent)

  -- The loop says that it is ready before each message that it takes. With no outcome it has taken
  -- all of them, and waits for one more; with an outcome it has taken one at least, and sends `Stop`
  -- behind the last.
  pub handle_commands-Answered :
      (ms : List ClientToServer) (c : Current p h) → Answered ms (handle_commands p h ms c)
  handle_commands-Answered [] c = unfold handle_commands in waiting refl refl
  handle_commands-Answered (m ∷ ms) c = elim (Step-cases (handle p h m c)) [
    | inl (lines, c', e) ↦
        subst (Answered (m ∷ ms)) (sym (handle_commands-continue m ms c e))
          (Answered-continue m ms (handle_commands p h ms c') (handle_commands-Answered ms c'))
    | inr (lines, o, c', e) ↦
        subst (Answered (m ∷ ms)) (sym (handle_commands-finish m ms c e))
          (stopped 1 o refl (omega arith, omega arith) refl)
  ]

  -- Where some lines stand, one behind the other, in a listing.
  pub record Stands (block lines : List Line) : Type 0 where
    pub before : List Line
    pub after : List Line
    pub there : lines ≡ before ++ (block ++ after)

  Stands-append :
      {block lines : List Line} (ls : List Line) → Stands block lines → Stands block (ls ++ lines)
  Stands-append {block} ls st = record {
    before = ls ++ st.before;
    after = st.after;
    there =
        ap (λ (xs : List Line). ls ++ xs) st.there
        ∙ sym (append_assoc ls st.before (block ++ st.after));
  }

  entry_lines-Stands :
      (es : List p.Entry) (n j : ℕ) (e : p.Entry)
      → get_elem? es j ≡ some e
      → Stands (entry (n + j) (p.show e) ∷ []) (entry_lines p h n es)
  unfolding entry_lines
  entry_lines-Stands [] n j e at = cc
  entry_lines-Stands (x ∷ es) n zero e at = record {
    before = [];
    after = entry_lines p h (n + 1) es;
    there = ground (arith, some-injective at);
  }
  entry_lines-Stands (x ∷ es) n (suc j) e at =
      subst
        (λ k. Stands (entry k (p.show e) ∷ []) (entry n (p.show x) ∷ entry_lines p h (n + 1) es))
        (shift n j) (Stands-append (entry n (p.show x) ∷ []) (entry_lines-Stands es (n + 1) j e at))

  -- The lines of one device.
  abbrev pub device_block : ℕ → BootDevice p.Entry → List Line
  device_block n d = device n d.name ∷ entry_lines p h 1 d.entries

  device_lines-Stands :
      (ds : List (BootDevice p.Entry)) (n i : ℕ) (d : BootDevice p.Entry)
      → get_elem? ds i ≡ some d
      → Stands (device_block (n + i) d) (device_lines p h n ds)
  unfolding device_lines
  device_lines-Stands [] n i d at = cc
  device_lines-Stands (x ∷ ds) n zero d at =
      subst (λ y. Stands (device_block (n + 0) y) (device_block n x ++ device_lines p h (n + 1) ds))
        (some-injective at)
        (record {
          before = [];
          after = device_lines p h (n + 1) ds;
          there = ap (λ k. device_block k x ++ device_lines p h (n + 1) ds) (plus_zero n);
        })
  device_lines-Stands (x ∷ ds) n (suc i) d at =
      subst (λ k. Stands (device_block k d) (device_block n x ++ device_lines p h (n + 1) ds))
        (shift n i) (Stands-append (device_block n x) (device_lines-Stands ds (n + 1) i d at))

  -- The numbers that `list` prints are those that `boot` takes: the entry that `boot` selects by two
  -- numbers is listed under the second among the lines of the device listed under the first.
  pub select_entry-get_elem? :
      (devs : List (BootDevice p.Entry)) (i j : ℕ) (d : BootDevice p.Entry) (e : p.Entry)
      → get_elem? devs i ≡ some d
      → get_elem? d.entries j ≡ some e
      → (select_entry p h devs (some (suc i)) (some (suc j)) ≡ some e)
        × Stands (device_block (suc i) d) (device_lines p h 1 devs)
        × Stands (entry (suc j) (p.show e) ∷ []) (entry_lines p h 1 d.entries)
  unfolding select_entry at_index
  select_entry-get_elem? devs i j d e hd he = (
    rw (hd, select_entry) he,
    subst (λ k. Stands (device_block k d) (device_lines p h 1 devs)) (one_plus i)
        (device_lines-Stands devs 1 i d hd),
    subst (λ k. Stands (entry k (p.show e) ∷ []) (entry_lines p h 1 d.entries)) (one_plus j)
        (entry_lines-Stands d.entries 1 j e he),
  )

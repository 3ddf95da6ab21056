-- ===== src/Box/Slots.antt =====
-- The rows that src/reac_box_row.c hands out.
use reac_pw.Prelude.{
  ℕ, ◌≡◌, refl, inl, inr, Bool, true, false, not, ◌&&◌, ◌||◌, Option, none, some, arith, ◌==◌,
  if◌then◌else◌, Bool-cases,
}
use reac_pw.Prelude.Bytes.{str_eq_refl}
use reac_pw.Box.{Model}
use reac_pw.Box.Row.{
  Which, first, second, Rows, slot, Identity, Named, Libreac, is_current, next_slot, built,
  with_name, row_resolve, said, have_hw,
}

-- A row's slot keeps what it holds.
abbrev pub Kept : Rows → Rows → Option Which → Type 0
Kept r r' none = Unit
Kept r r' (some w) = slot r' w ≡ slot r w

module _ (lib : Libreac) where
  pub next_slot-Kept :
      (r : Rows) (catalogue : Option Model) (i o : ℕ) (id : Option Identity) (n : Named)
      (cur : Option Which)
      → r.cur ≡ cur
      → Kept r (built lib r catalogue i o id n) cur
  next_slot-Kept r catalogue i o id n none e = tt
  next_slot-Kept r catalogue i o id n (some first) e = rw e
  next_slot-Kept r catalogue i o id n (some second) e = rw e

  pub Kept-same : (r : Rows) (cur : Option Which) → Kept r r cur
  Kept-same r none = tt
  Kept-same r (some first) = refl
  Kept-same r (some second) = refl

  pub Kept-pick :
      (r : Rows) (w : Option Which) (p : Rows × Option Which) (b : Bool) (cur : Option Which)
      → Kept r p.0 cur
      → Kept r (if◌then◌else◌ {A = Rows × Option Which} b (r, w) p).0 cur
  Kept-pick r w p true cur k = Kept-same r cur
  Kept-pick r w p false cur k = k

  pub with_name-Kept :
      (r : Rows) (catalogue : Option Model) (i o : ℕ) (id : Option Identity) (n : Option Named)
      → Kept r (with_name lib r catalogue i o id n).0 r.cur
  with_name-Kept r catalogue i o id none = Kept-same r r.cur
  with_name-Kept r catalogue i o id (some n) =
      Kept-pick r r.cur (built lib r catalogue i o id n, some (next_slot r.cur))
        (is_current lib r i o n.display r.cur) r.cur
        (next_slot-Kept r catalogue i o id n r.cur refl)

  pub built-current :
      (r : Rows) (catalogue : Option Model) (i o : ℕ) (id : Option Identity) (n : Named) (w : Which)
      → next_slot r.cur ≡ w
      → ((built lib r catalogue i o id n).cur ≡ some (next_slot r.cur))
        × (is_current lib
              (built lib r catalogue i o id n)
              i
              o
              n.display
              (built lib r catalogue i o id n).cur
            ≡ true)
  built-current r catalogue i o id n first e = (rw e, rw e (ground (arith, str_eq_refl n.display)))
  built-current r catalogue i o id n second e = (rw e, rw e (ground (arith, str_eq_refl n.display)))

  pub with_name-again :
      (r : Rows) (catalogue : Option Model) (i o : ℕ) (id : Option Identity) (n : Option Named)
      → with_name lib (with_name lib r catalogue i o id n).0 catalogue i o id n
        ≡ with_name lib r catalogue i o id n
  with_name-again r catalogue i o id none = refl
  with_name-again r catalogue i o id (some n) =
      elim (Bool-cases (is_current lib r i o n.display r.cur)) [
        | inl e ↦ rw (e, e)
        | inr e ↦
            let (at_next, current) = built-current r catalogue i o id n (next_slot r.cur) refl in
            rw (e, current, at_next)
      ]

  -- Where there is no row yet: nothing declared, or the identity page still awaited.
  abbrev pub waits : ℕ → ℕ → Option Identity → Bool → Bool
  waits i o id wait_over = i == 0 && o == 0 || not (have_hw id) && not wait_over

  pub row_resolve-with_name :
      (r : Rows) (catalogue : Option Model) (i o : ℕ) (id : Option Identity) (wait_over : Bool)
      → row_resolve lib r catalogue i o id wait_over ≡ (
          if◌then◌else◌ {A = Rows × Option Which}
            (waits i o id wait_over)
            (r, none)
            (with_name lib r catalogue i o id (lib.box_name id (said id) i o)))
  unfolding row_resolve
  row_resolve-with_name r catalogue i o id wait_over = ground arith

  -- The row that was handed out last outlives the next one: whatever a box declares then, its slot
  -- holds what it held.
  pub row_resolve-Kept :
      (r : Rows) (catalogue : Option Model) (i o : ℕ) (id : Option Identity) (wait_over : Bool)
      → Kept r (row_resolve lib r catalogue i o id wait_over).0 r.cur
  row_resolve-Kept r catalogue i o id wait_over =
      rw (row_resolve-with_name r catalogue i o id wait_over) (
        Kept-pick r none (with_name lib r catalogue i o id (lib.box_name id (said id) i o))
          (waits i o id wait_over) r.cur
          (with_name-Kept r catalogue i o id (lib.box_name id (said id) i o)))

  -- The same declaration again answers the same row and builds nothing.
  pub row_resolve-again :
      (r : Rows) (catalogue : Option Model) (i o : ℕ) (id : Option Identity) (wait_over : Bool)
      → row_resolve lib (row_resolve lib r catalogue i o id wait_over).0 catalogue i o id wait_over
        ≡ row_resolve lib r catalogue i o id wait_over
  row_resolve-again r catalogue i o id wait_over = elim (Bool-cases (waits i o id wait_over)) [
    | inl e ↦ let once = row_resolve-with_name r catalogue i o id wait_over in rw (once, e, once, e)
    | inr e ↦
        let once = row_resolve-with_name r catalogue i o id wait_over in
        let name = lib.box_name id (said id) i o in
        rw
          (
            once,
            e,
            row_resolve-with_name (with_name lib r catalogue i o id name).0 catalogue i o id
                wait_over,
            e,
          )
          (with_name-again r catalogue i o id name)
  ]

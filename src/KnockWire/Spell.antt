-- ===== src/KnockWire/Spell.antt =====
-- When a wire is knocked, and what ends it (src/reac_knock_wire.c).
use reac_pw.Prelude.{
  ℕ, ◌≡◌, ◌↔◌, refl, Bool, true, false, not, ◌&&◌, ◌||◌, Option, none, some, arith,
}
use reac_pw.Prelude.Bytes.{CString}
use reac_pw.KnockWire.Interface.{Libreac}
use reac_pw.KnockWire.{
  Wire, knocking, Act, nothing, knock, is_knocking, is_trunk, step, heard, heard_at, answered_by,
  keep, answer_taken, spell, knock_open, knock_peek,
}

module _ (lib : Libreac) where
  -- A poll, a frame, and the answer handed on.
  pub data Event : Type 0 where
    polls : Bool → ℕ → Bool → Event
    hears : ℕ → Option CString → Bool → Event
    takes : Event

  abbrev pub handle : Wire lib → Event → Wire lib × Act
  handle w (polls pinned now trunk_now) = step lib w pinned now trunk_now
  handle w (hears now frame evidence) = heard lib w now frame evidence
  handle w takes = (answer_taken lib w, nothing)

  -- What ends a knock: the tags of a trunk, or evidence of a box or a master.
  abbrev pub ends_knock : Event → Bool
  ends_knock (polls pinned now trunk_now) = trunk_now
  ends_knock (hears now frame evidence) = evidence
  ends_knock takes = false

  -- What starts one: a poll that finds the licence granted on a wire which is neither pinned nor a trunk.
  abbrev pub starts_knock : Wire lib → Event → Bool
  starts_knock w (polls pinned now trunk_now) =
      not trunk_now
      && not pinned
      && not (is_trunk w.state)
      && not (is_knocking w.state)
      && lib.licence_drives w.licence now
  starts_knock w (hears now frame evidence) = false
  starts_knock w takes = false

  state-spell : (w : Wire lib) (now : ℕ) → (spell lib w now).state ≡ knocking
  unfolding knock_open knock_peek
  state-spell w now = ground arith

  state-keep : (w : Wire lib) (frame : Option CString) → (keep lib w frame).state ≡ w.state
  state-keep w none = refl
  state-keep w (some frame) = ground arith

  -- A wire knocks after an event exactly where it did and the event does not end it, or where the
  -- event starts it; the caller is told to open the sender exactly then.
  pub knocking_iff :
      (w : Wire lib) (e : Event)
      → (is_knocking (handle w e).0.state
          ≡ (is_knocking w.state && not (ends_knock e) || starts_knock w e))
        × (((handle w e).1 ≡ knock) ↔ (starts_knock w e ≡ true))
  unfolding step heard answer_taken
  knocking_iff w (polls pinned now trunk_now) =
      ground (arith, state-spell (record w { licence = lib.licence_after w.licence now }) now)
  knocking_iff w (hears now frame evidence) =
      ground (arith, state-keep (answered_by lib (heard_at lib w now) frame evidence).0 frame)
  knocking_iff w takes = ground arith

-- ===== src/KnockWire/Run.antt =====
-- The frames of a knock whose slots have come (`reac_knock_wire_run` in src/reac_knock_wire.c). The
-- callback `send` is the caller's: it takes its context and a frame, and says whether the frame left.
-- The endless loop is a recursion on fuel, which answers `none` where the fuel runs out.
use reac_pw.Prelude.{
  ℕ, zero, suc, ◌+◌, Bool, true, false, not, ◌&&◌, ◌||◌, Option, none, some, ltb, leb, ◌==◌,
  if◌then◌else◌,
}
use reac_pw.Prelude.Words.{u64, sub64}
use reac_pw.Prelude.Bytes.{CString}
use reac_pw.KnockWire.Interface.{
  Libreac, Emit, filler, scene_head, scene_chunk, scene_tail, control,
}
use reac_pw.KnockWire.{
  Wire, is_filler, is_knocking, late_ns, slot_ns, knock_open, knock_rest, knock_peek,
}

-- What became of a slot's frame.
pub data Outcome : Type 0 where
  left_host refused_by_wire not_stamped too_late : Outcome

abbrev pub left : Outcome → Bool
left left_host = true
left _ = false

module _ (lib : Libreac) {Ctx : Type 0} (send : Ctx → CString → Ctx × Bool) where
  abbrev pub sent_frame : Ctx × Bool → Outcome × Ctx
  sent_frame (ctx, true) = (left_host, ctx)
  sent_frame (ctx, false) = (refused_by_wire, ctx)

  abbrev pub send_stamped : Ctx → Option CString → Outcome × Ctx
  send_stamped ctx none = (not_stamped, ctx)
  send_stamped ctx (some frame) = sent_frame (send ctx frame)

  -- A slot whose time passed by more than `late_ns` is not sent.
  abbrev pub send_slot : Wire lib → ℕ → Emit → Ctx → Outcome × Ctx
  send_slot w now emit ctx =
      if ltb late_ns (sub64 now (slot_ns lib w w.slot))
      then (too_late, ctx)
      else send_stamped ctx (
          lib.stamped_frame (lib.next_master w.master) w.src (lib.next_counter w.master) emit
            (lib.next_idx w.master))

  abbrev pub counted : Wire lib → Outcome → Wire lib
  counted w left_host = record w { sent = u64 (w.sent + 1); spell_sent = u64 (w.spell_sent + 1) }
  counted w refused_by_wire = record w { send_errors = u64 (w.send_errors + 1) }
  counted w not_stamped = w
  counted w too_late = record w { late = u64 (w.late + 1) }

  -- A transfer counts once its first, every middle and its last frame have left.
  abbrev pub transfer : Wire lib → Emit → Bool → Wire lib
  transfer w filler b = w
  transfer w control b = w
  transfer w scene_head true = record w { head_sent = true; chunks_sent = 0 }
  transfer w scene_chunk true = record w { chunks_sent = w.chunks_sent + 1 }
  transfer w scene_tail true =
      if w.head_sent && w.chunks_sent == lib.scene_chunks
      then record w { pushes = u64 (w.pushes + 1); head_sent = false }
      else w
  transfer w scene_head false = record w { head_sent = false }
  transfer w scene_chunk false = record w { head_sent = false }
  transfer w scene_tail false = record w { head_sent = false }

  abbrev pub stepped : Wire lib → Wire lib
  stepped w = record w { master = lib.next_master w.master; slot = u64 (w.slot + 1) }

  -- The slot that has come, and how many frames left.
  unfoldable pub run_slot : Wire lib → ℕ → Ctx → Wire lib × ℕ × Ctx
  run_slot w now ctx =
      if is_filler (lib.next_emit w.master)
      then (stepped w, 0, ctx)
      else (let (o, ctx') = send_slot w now (lib.next_emit w.master) ctx in
          (
            transfer (counted (stepped w) o) (lib.next_emit w.master) (left o),
            (if left o then 1 else 0),
            ctx',
          ))

  pub data Turn : Type 0 where
    stop : Wire lib → Turn
    again : Wire lib → ℕ → Ctx → Turn

  -- The slot of a knock that is open.
  abbrev pub turn_open : Wire lib → ℕ → Ctx → Turn
  turn_open w now ctx =
      if leb (lib.cycle_len w.master) w.slot
      then again (knock_rest lib w) 0 ctx
      else if ltb now (slot_ns lib w w.slot)
      then stop w
      else (let (w', n, ctx') = run_slot w now ctx in again w' n ctx')

  -- A knock that rests is opened when its rest is over.
  abbrev pub turn_from : Bool → Wire lib → ℕ → Ctx → Turn
  turn_from false w now ctx = turn_open w now ctx
  turn_from true w now ctx =
      if ltb now w.next_ns then stop w else turn_open (knock_open lib w w.next_ns) now ctx

  -- One turn of the loop.
  unfoldable pub turn : Wire lib → ℕ → Ctx → Turn
  turn w now ctx = turn_from w.resting w now ctx

  -- The loop: the wire at its end, how many frames left, and the context. `go` is the rest of the
  -- loop, where the turn asks for it.
  abbrev pub looped :
      (Wire lib → ℕ → Ctx → Option (Wire lib × ℕ × Ctx))
      → ℕ
      → Ctx
      → Turn
      → Option (Wire lib × ℕ × Ctx)
  looped go sent ctx (stop w) = some (w, sent, ctx)
  looped go sent ctx (again w n ctx') = go w (sent + n) ctx'

  unfoldable pub loop : ℕ → Wire lib → ℕ → ℕ → Ctx → Option (Wire lib × ℕ × Ctx)
  loop zero w now sent ctx = none
  loop (suc fuel) w now sent ctx =
      looped (λ w' n ctx'. loop fuel w' now n ctx') sent ctx (turn w now ctx)

  abbrev pub finished : Option (Wire lib × ℕ × Ctx) → Option (Wire lib × ℕ × Ctx)
  finished none = none
  finished (some (w, sent, ctx)) = some (knock_peek lib w, sent, ctx)

  unfoldable pub run : ℕ → Wire lib → ℕ → Ctx → Option (Wire lib × ℕ × Ctx)
  run fuel w now ctx =
      if not (is_knocking w.state) || w.fps == 0
      then some (w, 0, ctx)
      else finished (loop fuel w now 0 ctx)

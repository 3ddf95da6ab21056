-- ===== src/KnockWire/Timing.antt =====
-- What a slot leaves of a knock's timing (src/reac_knock_wire.c).
use reac_pw.Prelude.{ℕ, ◌≡◌, refl, ◌∙◌, Bool, true, false, ◌&&◌, Bool-cases, inl, inr, ◌==◌}
use reac_pw.Prelude.Bytes.{CString}
use reac_pw.KnockWire.Interface.{
  Libreac, Emit, filler, scene_head, scene_chunk, scene_tail, control,
}
use reac_pw.KnockWire.{Wire, WireState, is_filler}
use reac_pw.KnockWire.Run.{
  Outcome, left_host, refused_by_wire, not_stamped, too_late, left, counted, transfer, stepped,
  send_slot, run_slot,
}

module _ (lib : Libreac) where
  -- What says when a frame is sent, and from whom.
  pub record Timing : Type 0 where
    pub state : WireState
    pub src : CString
    pub fps : ℕ
    pub t0_ns : ℕ
    pub next_ns : ℕ
    pub resting : Bool
    pub unanswered : ℕ
    pub slot : ℕ
    pub master : lib.Master

  abbrev pub timing : Wire lib → Timing
  timing w = record {
    state = w.state;
    src = w.src;
    fps = w.fps;
    t0_ns = w.t0_ns;
    next_ns = w.next_ns;
    resting = w.resting;
    unanswered = w.unanswered;
    slot = w.slot;
    master = w.master;
  }

  module _ {Ctx : Type 0} (send : Ctx → CString → Ctx × Bool) where
    timing-counted : (w : Wire lib) (o : Outcome) → timing (counted lib send w o) ≡ timing w
    timing-counted w left_host = refl
    timing-counted w refused_by_wire = refl
    timing-counted w not_stamped = refl
    timing-counted w too_late = refl

    timing-transfer :
        (w : Wire lib) (e : Emit) (b : Bool) → timing (transfer lib send w e b) ≡ timing w
    timing-transfer w filler b = refl
    timing-transfer w control b = refl
    timing-transfer w scene_head true = refl
    timing-transfer w scene_chunk true = refl
    timing-transfer w scene_tail true =
        elim (Bool-cases (w.head_sent && w.chunks_sent == lib.scene_chunks)) [
          | inl whole ↦ rw whole refl
          | inr partly ↦ rw partly refl
        ]
    timing-transfer w scene_head false = refl
    timing-transfer w scene_chunk false = refl
    timing-transfer w scene_tail false = refl

    transfer-counted :
        (w : Wire lib) (o : Outcome) (e : Emit)
        → timing (transfer lib send (counted lib send w o) e (left o)) ≡ timing w
    transfer-counted w left_host e =
        timing-transfer (counted lib send w left_host) e true ∙ timing-counted w left_host
    transfer-counted w refused_by_wire e =
        timing-transfer (counted lib send w refused_by_wire) e false
        ∙ timing-counted w refused_by_wire
    transfer-counted w not_stamped e =
        timing-transfer (counted lib send w not_stamped) e false ∙ timing-counted w not_stamped
    transfer-counted w too_late e =
        timing-transfer (counted lib send w too_late) e false ∙ timing-counted w too_late

    pub timing-run_slot :
        (w : Wire lib) (now : ℕ) (ctx : Ctx)
        → timing (run_slot lib send w now ctx).0 ≡ timing (stepped lib send w)
    unfolding run_slot
    timing-run_slot w now ctx = elim (Bool-cases (is_filler (lib.next_emit w.master))) [
      | inl quiet ↦ rw quiet refl
      | inr sends ↦ rw sends (
          transfer-counted (stepped lib send w)
            (send_slot lib send w now (lib.next_emit w.master) ctx).0 (lib.next_emit w.master))
    ]

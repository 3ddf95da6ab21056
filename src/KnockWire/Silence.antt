-- ===== src/KnockWire/Silence.antt =====
-- Nothing of the stream leaves the host while a wire is knocked (src/reac_knock_wire.c).
use reac_pw.Prelude.{
  ℕ, zero, suc, ◌+◌, ◌≡◌, refl, ap, ◌∙◌, Bool, true, false, not, ◌||◌, Option, none, some,
  Bool-cases, inl, inr, arith, leb, ltb, ◌==◌, if◌then◌else◌,
}
use reac_pw.Prelude.Words.{sub64}
use reac_pw.Prelude.Bytes.{CString}
use reac_pw.KnockWire.Interface.{Libreac, Emit}
use reac_pw.KnockWire.{
  Wire, is_filler, is_knocking, slot_ns, knock_open, knock_rest, knock_peek, late_ns,
}
use reac_pw.KnockWire.Timing.{timing-run_slot}
use reac_pw.KnockWire.Run.{
  sent_frame, send_stamped, send_slot, run_slot, Turn, stop, again, turn_open, turn_from, turn,
  looped, loop, finished, run,
}

-- A frame that carries the control block of a slot which is not FILLER, sent from `src`.
pub record IsControl (lib : Libreac) (src frame : CString) : Type 0 where
  pub master : lib.Master
  pub emit : Emit
  pub counter : ℕ
  pub idx : ℕ
  pub control : is_filler emit ≡ false
  pub stamped : lib.stamped_frame master src counter emit idx ≡ some frame

module _ (lib : Libreac) {Ctx : Type 0} (send : Ctx → CString → Ctx × Bool) (P : Ctx → Type 0)
    (src : CString)
    (keeps : (ctx : Ctx) (frame : CString)
      → IsControl lib src frame
      → P ctx
      → P (send ctx frame).0) where
  sent_frame-keeps : (r : Ctx × Bool) → P r.0 → P (sent_frame lib send r).1
  sent_frame-keeps (ctx, true) p = p
  sent_frame-keeps (ctx, false) p = p

  send_stamped-keeps :
      (ctx : Ctx) (m : lib.Master) (counter : ℕ) (emit : Emit) (idx : ℕ) (o : Option CString)
      → is_filler emit ≡ false
      → lib.stamped_frame m src counter emit idx ≡ o
      → P ctx
      → P (send_stamped lib send ctx o).1
  send_stamped-keeps ctx m counter emit idx none c e p = p
  send_stamped-keeps ctx m counter emit idx (some frame) c e p = sent_frame-keeps (send ctx frame) (
      keeps ctx frame
        (record { master = m; emit = emit; counter = counter; idx = idx; control = c; stamped = e })
        p)

  send_slot-keeps :
      (w : Wire lib) (now : ℕ) (ctx : Ctx)
      → w.src ≡ src
      → is_filler (lib.next_emit w.master) ≡ false
      → P ctx
      → P (send_slot lib send w now (lib.next_emit w.master) ctx).1
  send_slot-keeps w now ctx s c p =
      elim (Bool-cases (ltb late_ns (sub64 now (slot_ns lib w w.slot)))) [
        | inl past ↦ rw past p
        | inr timely ↦
            rw (timely, s)
              (send_stamped-keeps ctx (lib.next_master w.master) (lib.next_counter w.master)
                (lib.next_emit w.master) (lib.next_idx w.master) _ c refl p)
      ]

  run_slot-keeps :
      (w : Wire lib) (now : ℕ) (ctx : Ctx) → w.src ≡ src → P ctx → P (run_slot lib send w now ctx).2
  unfolding run_slot
  run_slot-keeps w now ctx s p = elim (Bool-cases (is_filler (lib.next_emit w.master))) [
    | inl quiet ↦ rw quiet p
    | inr sends ↦ rw sends (send_slot-keeps w now ctx s sends p)
  ]

  src-run_slot :
      (w : Wire lib) (now : ℕ) (ctx : Ctx) → w.src ≡ src → (run_slot lib send w now ctx).0.src ≡ src
  src-run_slot w now ctx s = ap (λ t. t.src) (timing-run_slot lib send w now ctx) ∙ s

  -- The wire's own address stays, and `P` holds, wherever the turn leads.
  abbrev Kept : Turn lib send → Type 0
  Kept (stop w) = w.src ≡ src
  Kept (again w n ctx) = (w.src ≡ src) × P ctx

  src-knock_rest : (w : Wire lib) → (knock_rest lib w).src ≡ w.src
  unfolding knock_rest knock_peek
  src-knock_rest w = ground arith

  src-knock_open : (w : Wire lib) (at : ℕ) → (knock_open lib w at).src ≡ w.src
  unfolding knock_open knock_peek
  src-knock_open w at = ground arith

  pick-Kept : (b : Bool) (x y : Turn lib send) → Kept x → Kept y → Kept (if b then x else y)
  pick-Kept true x y h k = h
  pick-Kept false x y h k = k

  turn_open-keeps :
      (w : Wire lib) (now : ℕ) (ctx : Ctx)
      → w.src ≡ src
      → P ctx
      → Kept (turn_open lib send w now ctx)
  turn_open-keeps w now ctx s p =
      pick-Kept (leb (lib.cycle_len w.master) w.slot) _ _ (src-knock_rest w ∙ s, p)
        (pick-Kept (ltb now (slot_ns lib w w.slot)) _ _ s
          (src-run_slot w now ctx s, run_slot-keeps w now ctx s p))

  turn_from-keeps :
      (b : Bool) (w : Wire lib) (now : ℕ) (ctx : Ctx)
      → w.src ≡ src
      → P ctx
      → Kept (turn_from lib send b w now ctx)
  turn_from-keeps false w now ctx s p = turn_open-keeps w now ctx s p
  turn_from-keeps true w now ctx s p =
      pick-Kept (ltb now w.next_ns) _ _ s
        (turn_open-keeps (knock_open lib w w.next_ns) now ctx (src-knock_open w w.next_ns ∙ s) p)

  turn-keeps :
      (w : Wire lib) (now : ℕ) (ctx : Ctx) → w.src ≡ src → P ctx → Kept (turn lib send w now ctx)
  unfolding turn
  turn-keeps w now ctx s p = turn_from-keeps w.resting w now ctx s p

  abbrev Holds : Option (Wire lib × ℕ × Ctx) → Type 0
  Holds none = Unit
  Holds (some (w, sent, ctx)) = P ctx

  loop-keeps :
      (fuel : ℕ) (w : Wire lib) (now sent : ℕ) (ctx : Ctx)
      → w.src ≡ src
      → P ctx
      → Holds (loop lib send fuel w now sent ctx)
  unfolding loop
  loop-keeps zero w now sent ctx s p = tt
  loop-keeps (suc fuel) w now sent ctx s p =
      after (λ w' n ctx' k. loop-keeps fuel w' now (sent + n) ctx' k.0 k.1)
        (turn lib send w now ctx) (turn-keeps w now ctx s p)
    where
      after :
          ((w' : Wire lib) (n : ℕ) (ctx' : Ctx)
            → (w'.src ≡ src) × P ctx'
            → Holds (loop lib send fuel w' now (sent + n) ctx'))
          → (t : Turn lib send) → Kept t
          → Holds (looped lib send (λ w' n' ctx'. loop lib send fuel w' now n' ctx') sent ctx t)
      after rest (stop w') k = p
      after rest (again w' n ctx') k = rest w' n ctx' k

  Holds-finished : (r : Option (Wire lib × ℕ × Ctx)) → Holds r → Holds (finished lib send r)
  Holds-finished none h = h
  Holds-finished (some (w, sent, ctx)) h = h

  run-Holds :
      (fuel : ℕ) (w : Wire lib) (now : ℕ) (ctx : Ctx)
      → w.src ≡ src
      → P ctx
      → Holds (run lib send fuel w now ctx)
  unfolding run
  run-Holds fuel w now ctx s p = elim (Bool-cases (not (is_knocking w.state) || w.fps == 0)) [
    | inl idle ↦ rw idle p
    | inr runs ↦
        rw runs (Holds-finished (loop lib send fuel w now 0 ctx) (loop-keeps fuel w now 0 ctx s p))
  ]

  -- Whatever the caller's context knows of the wire, and every send of a control block from the
  -- wire's own address keeps, still holds after a run: a run sends nothing else, and FILLER never.
  pub run-keeps :
      (fuel : ℕ) (w w' : Wire lib) (now sent : ℕ) (ctx ctx' : Ctx)
      → w.src ≡ src
      → P ctx
      → run lib send fuel w now ctx ≡ some (w', sent, ctx')
      → P ctx'
  run-keeps fuel w w' now sent ctx ctx' s p e = rw e at (run-Holds fuel w now ctx s p)

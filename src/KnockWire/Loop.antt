-- ===== src/KnockWire/Loop.antt =====
-- Turns of the loop of a run, and fuel that is enough for it (src/reac_knock_wire.c).
use reac_pw.Prelude.{
  ℕ, zero, suc, ◌+◌, ◌≤◌, ◌≡◌, refl, ap, ◌∙◌, Bool, true, false, some, arith, leb, ltb,
  if◌then◌else◌,
}
use reac_pw.Prelude.Bytes.{CString}
use reac_pw.KnockWire.Interface.{Libreac}
use reac_pw.KnockWire.{Wire, slot_ns, knock_open, knock_rest}
use reac_pw.KnockWire.Run.{run_slot, stop, again, turn_open, turn_from, turn, looped, loop}

module _ (lib : Libreac) {Ctx : Type 0} (send : Ctx → CString → Ctx × Bool) (now : ℕ) where
  -- From some fuel on, the loop gives one and the same result.
  pub record Ends (w : Wire lib) (sent : ℕ) (ctx : Ctx) : Type 0 where
    pub enough : ℕ
    pub result : Wire lib × ℕ × Ctx
    pub reached : (fuel : ℕ) → enough ≤ fuel → loop lib send fuel w now sent ctx ≡ some result

  loop-stop :
      (w w' : Wire lib) (sent fuel : ℕ) (ctx : Ctx)
      → turn lib send w now ctx ≡ stop w'
      → loop lib send (suc fuel) w now sent ctx ≡ some (w', sent, ctx)
  unfolding loop
  loop-stop w w' sent fuel ctx e =
      ap (looped lib send (λ v n c. loop lib send fuel v now n c) sent ctx) e

  loop-again :
      (w w' : Wire lib) (sent n fuel : ℕ) (ctx ctx' : Ctx)
      → turn lib send w now ctx ≡ again w' n ctx'
      → loop lib send (suc fuel) w now sent ctx ≡ loop lib send fuel w' now (sent + n) ctx'
  unfolding loop
  loop-again w w' sent n fuel ctx ctx' e =
      ap (looped lib send (λ v k c. loop lib send fuel v now k c) sent ctx) e

  loop-same :
      (w w' : Wire lib) (sent fuel : ℕ) (ctx : Ctx)
      → turn lib send w now ctx ≡ turn lib send w' now ctx
      → loop lib send (suc fuel) w now sent ctx ≡ loop lib send (suc fuel) w' now sent ctx
  unfolding loop
  loop-same w w' sent fuel ctx e =
      ap (looped lib send (λ v k c. loop lib send fuel v now k c) sent ctx) e

  pub Ends-stop :
      (w w' : Wire lib) (sent : ℕ) (ctx : Ctx) → turn lib send w now ctx ≡ stop w' → Ends w sent ctx
  Ends-stop w w' sent ctx e = record { enough = 1; result = (w', sent, ctx); reached = reached }
    where
      reached : (fuel : ℕ) → 1 ≤ fuel → loop lib send fuel w now sent ctx ≡ some (w', sent, ctx)
      reached zero l = absurd (omega arith)
      reached (suc fuel) l = loop-stop w w' sent fuel ctx e

  pub Ends-again :
      (w w' : Wire lib) (sent n : ℕ) (ctx ctx' : Ctx)
      → turn lib send w now ctx ≡ again w' n ctx'
      → Ends w' (sent + n) ctx'
      → Ends w sent ctx
  Ends-again w w' sent n ctx ctx' e i = record {
    enough = suc i.enough;
    result = i.result;
    reached = reached;
  }
    where
      reached : (fuel : ℕ) → suc i.enough ≤ fuel → loop lib send fuel w now sent ctx ≡ some i.result
      reached zero l = absurd (omega arith)
      reached (suc fuel) l = loop-again w w' sent n fuel ctx ctx' e ∙ i.reached fuel (omega arith)

  -- A wire whose turn is another's ends as that one does.
  pub Ends-same :
      (w w' : Wire lib) (sent : ℕ) (ctx : Ctx)
      → turn lib send w now ctx ≡ turn lib send w' now ctx
      → Ends w' sent ctx
      → Ends w sent ctx
  Ends-same w w' sent ctx e i = record {
    enough = suc i.enough;
    result = i.result;
    reached = reached;
  }
    where
      reached : (fuel : ℕ) → suc i.enough ≤ fuel → loop lib send fuel w now sent ctx ≡ some i.result
      reached zero l = absurd (omega arith)
      reached (suc fuel) l = loop-same w w' sent fuel ctx e ∙ i.reached (suc fuel) (omega arith)

  pub turn-early :
      (w : Wire lib) (ctx : Ctx)
      → w.resting ≡ true
      → ltb now w.next_ns ≡ true
      → turn lib send w now ctx ≡ stop w
  unfolding turn
  turn-early w ctx r e =
      ap (λ b. turn_from lib send b w now ctx) r
      ∙ ap (λ b. if b then stop w else turn_open lib send (knock_open lib w w.next_ns) now ctx) e

  pub turn-due :
      (w : Wire lib) (ctx : Ctx)
      → w.resting ≡ true
      → ltb now w.next_ns ≡ false
      → turn lib send w now ctx ≡ turn_open lib send (knock_open lib w w.next_ns) now ctx
  unfolding turn
  turn-due w ctx r e =
      ap (λ b. turn_from lib send b w now ctx) r
      ∙ ap (λ b. if b then stop w else turn_open lib send (knock_open lib w w.next_ns) now ctx) e

  pub turn_open-ended :
      (w : Wire lib) (ctx : Ctx)
      → leb (lib.cycle_len w.master) w.slot ≡ true
      → turn_open lib send w now ctx ≡ again (knock_rest lib w) 0 ctx
  turn_open-ended w ctx e = rw e refl

  pub turn_open-early :
      (w : Wire lib) (ctx : Ctx)
      → leb (lib.cycle_len w.master) w.slot ≡ false
      → ltb now (slot_ns lib w w.slot) ≡ true
      → turn_open lib send w now ctx ≡ stop w
  turn_open-early w ctx e l = rw (e, l) refl

  pub turn_open-due :
      (w : Wire lib) (ctx : Ctx)
      → leb (lib.cycle_len w.master) w.slot ≡ false
      → ltb now (slot_ns lib w w.slot) ≡ false
      → turn_open lib send w now ctx
        ≡ again
            (run_slot lib send w now ctx).0
            (run_slot lib send w now ctx).1
            (run_slot lib send w now ctx).2
  turn_open-due w ctx e l = rw (e, l) refl

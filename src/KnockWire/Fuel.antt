-- ===== src/KnockWire/Fuel.antt =====
-- The loop of a run ends: every knock has a last slot, and every rest takes time
-- (src/reac_knock_wire.c).
use reac_pw.Prelude.{
  ℕ, zero, suc, ◌+◌, ◌*◌, ◌/◌, ◌^◌, ◌≤◌, ◌<◌, ◌≡◌, refl, sym, ap, ◌∙◌, Bool, true, false, not, ◌||◌,
  some, Bool-cases, ◌⊎◌, inl, inr, arith, leb, ltb, ltb→ge, ◌==◌,
}
use native.Mathlib.Nat.{le-div_iff_mul-le, le-mul_of_pos_right, one-le-pow, le_trans}
use Prim.Native.Nat.{min}
use reac_pw.Prelude.Words.{u64, second}
use reac_pw.Prelude.Bytes.{CString}
use reac_pw.KnockWire.Interface.{Libreac}
use reac_pw.KnockWire.{
  Wire, is_knocking, slot_ns, slots_of, to_header, master_at_header, period_ns, period_max_ns,
  knock_open, knock_rest, knock_peek,
}
use reac_pw.KnockWire.Backoff.{period_ns_lem}
use reac_pw.KnockWire.Timing.{timing-run_slot}
use reac_pw.KnockWire.Loop.{
  Ends, Ends-stop, Ends-again, Ends-same, turn-early, turn-due, turn_open-ended, turn_open-early,
  turn_open-due,
}
use reac_pw.KnockWire.Run.{run_slot, turn_open, turn_from, turn, finished, run}

some_quotient : (a b : ℕ) → 0 < b → b ≤ a → 1 ≤ a / b
some_quotient a b l h = (le-div_iff_mul-le l).1 (omega (arith, h))

min-bounds : (x : ℕ) → 1 ≤ x → (1 ≤ min x period_max_ns) × (min x period_max_ns ≤ period_max_ns)
min-bounds x l = (omega (arith, l), omega arith)

module _ (lib : Libreac)
    (steady : (m : lib.Master) → lib.cycle_len (lib.next_master m) ≡ lib.cycle_len m) where
  to_header-cycle_len :
      (n : ℕ) (m : lib.Master) → lib.cycle_len (to_header lib n m) ≡ lib.cycle_len m
  to_header-cycle_len zero m = refl
  to_header-cycle_len (suc n) m =
      ground (arith, steady m, to_header-cycle_len n (lib.next_master m))

  cycle_len-at_header :
      (src : CString) (fps : ℕ)
      → lib.cycle_len (master_at_header lib src fps) ≡ lib.cycle_len (lib.fresh_master src fps)
  unfolding master_at_header
  cycle_len-at_header src fps =
      to_header-cycle_len (lib.cycle_len (lib.fresh_master src fps)) (lib.fresh_master src fps)

module _ (lib : Libreac) (w : Wire lib) where
  -- What a rest and an opening set.
  rest_sets :
      ((knock_rest lib w).resting ≡ true)
      × ((knock_rest lib w).src ≡ w.src)
      × ((knock_rest lib w).fps ≡ w.fps)
      × ((knock_rest lib w).next_ns ≡ u64 (w.t0_ns + period_ns lib w w.unanswered))
  unfolding knock_rest knock_peek
  rest_sets = ground arith

  open_sets :
      (at : ℕ)
      → ((knock_open lib w at).resting ≡ false)
        × ((knock_open lib w at).src ≡ w.src)
        × ((knock_open lib w at).fps ≡ w.fps)
        × ((knock_open lib w at).t0_ns ≡ at)
        × ((knock_open lib w at).slot ≡ 0)
        × ((knock_open lib w at).master ≡ master_at_header lib w.src w.fps)
  unfolding knock_open knock_peek
  open_sets at = ground arith

-- A cadence and a cycle of libreac's that a knock can keep.
pub record IsSteady (lib : Libreac) (mac : CString) (rate cycle : ℕ) : Type 0 where
  pub steady : (m : lib.Master) → lib.cycle_len (lib.next_master m) ≡ lib.cycle_len m
  pub fresh : lib.cycle_len (lib.fresh_master mac rate) ≡ cycle
  pub some_slot : 0 < cycle
  pub few_slots : cycle < 2 ^ 31
  pub some_rate : 0 < rate
  pub most_rate : rate ≤ second

module _ (lib : Libreac) (mac : CString) (rate cycle : ℕ)
    (known : IsSteady lib mac rate cycle) where
  record IsOpen (w : Wire lib) : Type 0 where
    resting : w.resting ≡ false
    src : w.src ≡ mac
    fps : w.fps ≡ rate
    length : lib.cycle_len w.master ≡ cycle
    slot : w.slot ≤ cycle

  knock_open-IsOpen :
      (w : Wire lib) (at : ℕ)
      → w.src ≡ mac
      → w.fps ≡ rate
      → IsOpen (knock_open lib w at)
        × ((knock_open lib w at).t0_ns ≡ at)
        × ((knock_open lib w at).slot ≡ 0)
  knock_open-IsOpen w at s f =
      let (r, s', f', t, z, m) = open_sets lib w at in
      (
        record {
          resting = r;
          src = s' ∙ s;
          fps = f' ∙ f;
          length =
              ap lib.cycle_len m
              ∙ cycle_len-at_header lib known.steady w.src w.fps
              ∙ rw (s, f) known.fresh;
          slot = omega (arith, z);
        },
        t,
        z,
      )

  slots-IsOpen : (w : Wire lib) → IsOpen w → slots_of lib w ≡ cycle
  slots-IsOpen w v = ground (arith, v.length, known.some_slot)

  period-bounds :
      (w : Wire lib)
      → IsOpen w
      → (1 ≤ period_ns lib w w.unanswered) × (period_ns lib w w.unanswered ≤ period_max_ns)
  period-bounds w v =
      let e : slots_of lib w ≡ cycle = slots-IsOpen w v in
      let p =
        period_ns_lem lib w w.unanswered (rw v.fps known.some_rate) (rw e known.some_slot)
          (omega (arith, e, known.few_slots)) in
      let base : 1 ≤ slots_of lib w * second / w.fps =
        some_quotient (slots_of lib w * second) w.fps (rw v.fps known.some_rate)
          (omega (arith, e, v.fps, known.most_rate, known.some_slot)) in
      let more =
        le-mul_of_pos_right (slots_of lib w * second / w.fps)
          (one-le-pow w.unanswered 2 (omega arith)) in
      rw p (min-bounds (slots_of lib w * second / w.fps * 2 ^ w.unanswered) (le_trans base more))

  run_slot-IsOpen :
      {Ctx : Type 0} (send : Ctx → CString → Ctx × Bool) (w : Wire lib) (now : ℕ) (ctx : Ctx)
      → IsOpen w
      → w.slot < cycle
      → IsOpen (run_slot lib send w now ctx).0
        × ((run_slot lib send w now ctx).0.slot ≡ w.slot + 1)
        × ((run_slot lib send w now ctx).0.t0_ns ≡ w.t0_ns)
  run_slot-IsOpen send w now ctx v l =
      let e = timing-run_slot lib send w now ctx in
      let next : u64 (w.slot + 1) ≡ w.slot + 1 = omega (arith, known.few_slots) in
      let slot = ap (λ t. t.slot) e ∙ next in
      (
        record {
          resting = ap (λ t. t.resting) e ∙ v.resting;
          src = ap (λ t. t.src) e ∙ v.src;
          fps = ap (λ t. t.fps) e ∙ v.fps;
          length = ap (λ t. lib.cycle_len t.master) e ∙ known.steady w.master ∙ v.length;
          slot = omega (arith, slot);
        },
        slot,
        ap (λ t. t.t0_ns) e,
      )

  module _ {Ctx : Type 0} (send : Ctx → CString → Ctx × Bool) (now : ℕ) (soon : now < 2 ^ 63) where
    turn-IsOpen :
        (w : Wire lib) (ctx : Ctx)
        → IsOpen w
        → turn lib send w now ctx ≡ turn_open lib send w now ctx
    unfolding turn
    turn-IsOpen w ctx v = ap (λ b. turn_from lib send b w now ctx) v.resting

    -- Every open wire whose knock began less than `d` before the clock's next instant ends.
    abbrev Shorter : ℕ → Type 0
    Shorter d =
        (w : Wire lib) (sent : ℕ) (ctx : Ctx)
        → IsOpen w
        → w.t0_ns ≤ now
        → now + 1 ≤ w.t0_ns + d
        → Ends lib send now w sent ctx

    rested-Ends :
        (d : ℕ)
        → Shorter d
        → (w : Wire lib) (sent : ℕ) (ctx : Ctx) → IsOpen w
        → w.t0_ns ≤ now
        → now + 1 ≤ w.t0_ns + suc d
        → Ends lib send now (knock_rest lib w) sent ctx
    rested-Ends d shorter w sent ctx v l b =
        let (r, s, f, n) = rest_sets lib w in
        let (lo, hi) = period-bounds w v in
        let next : (knock_rest lib w).next_ns ≡ w.t0_ns + period_ns lib w w.unanswered =
          n ∙ omega (arith, l, hi, soon) in
        elim (Bool-cases (ltb now (knock_rest lib w).next_ns)) [
          | inl early ↦
              Ends-stop lib send now (knock_rest lib w) (knock_rest lib w) sent ctx
                (turn-early lib send now (knock_rest lib w) ctx r early)
          | inr due ↦
              let at = (knock_rest lib w).next_ns in
              let come : at ≤ now = ltb→ge now at due in
              let (o, t, z) = knock_open-IsOpen (knock_rest lib w) at (s ∙ v.src) (f ∙ v.fps) in
              Ends-same lib send now (knock_rest lib w) (knock_open lib (knock_rest lib w) at) sent
                ctx
                (turn-due lib send now (knock_rest lib w) ctx r due
                  ∙ sym (turn-IsOpen (knock_open lib (knock_rest lib w) at) ctx o))
                (shorter (knock_open lib (knock_rest lib w) at) sent ctx o (omega (arith, t, come))
                  (omega (arith, t, next, lo, b)))
        ]

    slots-Ends :
        (d : ℕ)
        → Shorter d
        → (s : ℕ) (w : Wire lib) (sent : ℕ) (ctx : Ctx) → IsOpen w
        → cycle ≤ w.slot + s
        → w.t0_ns ≤ now
        → now + 1 ≤ w.t0_ns + suc d
        → Ends lib send now w sent ctx
    slots-Ends d shorter zero w sent ctx v c l b =
        let ended : leb (lib.cycle_len w.master) w.slot ≡ true =
          full (lib.cycle_len w.master) w.slot v.length c in
        Ends-again lib send now w (knock_rest lib w) sent 0 ctx ctx
          (turn-IsOpen w ctx v ∙ turn_open-ended lib send now w ctx ended)
          (rested-Ends d shorter w (sent + 0) ctx v l b)
      where
        full : (a b : ℕ) → a ≡ cycle → cycle ≤ b + 0 → leb a b ≡ true
        full a b e h = ground arith
    slots-Ends d shorter (suc s) w sent ctx v c l b =
        elim (Bool-cases (leb (lib.cycle_len w.master) w.slot)) [
          | inl ended ↦
              Ends-again lib send now w (knock_rest lib w) sent 0 ctx ctx
                (turn-IsOpen w ctx v ∙ turn_open-ended lib send now w ctx ended)
                (rested-Ends d shorter w (sent + 0) ctx v l b)
          | inr going ↦ elim (Bool-cases (ltb now (slot_ns lib w w.slot))) [
            | inl early ↦
                Ends-stop lib send now w w sent ctx
                  (turn-IsOpen w ctx v ∙ turn_open-early lib send now w ctx going early)
            | inr due ↦
                let (v', z, t) =
                  run_slot-IsOpen send w now ctx v
                    (below (lib.cycle_len w.master) w.slot v.length going) in
                let (w', n, ctx') = run_slot lib send w now ctx in
                Ends-again lib send now w w' sent n ctx ctx'
                  (turn-IsOpen w ctx v ∙ turn_open-due lib send now w ctx going due)
                  (slots-Ends d shorter s w' (sent + n) ctx' v' (omega (arith, c, z))
                    (omega (arith, t, l)) (omega (arith, t, b)))
          ]
        ]
      where
        below : (a b : ℕ) → a ≡ cycle → leb a b ≡ false → b < cycle
        below a b e h = ground arith

    opened-Ends : (d : ℕ) → Shorter d
    opened-Ends zero w sent ctx v l b = absurd (omega (arith, l, b))
    opened-Ends (suc d) w sent ctx v l b =
        slots-Ends d (λ w' sent' ctx'. opened-Ends d w' sent' ctx') cycle w sent ctx v (omega arith)
          l b

    -- A knock that is resting ends too.
    resting-Ends :
        (w : Wire lib) (sent : ℕ) (ctx : Ctx)
        → w.src ≡ mac
        → w.fps ≡ rate
        → w.resting ≡ true
        → Ends lib send now w sent ctx
    resting-Ends w sent ctx s f r = elim (Bool-cases (ltb now w.next_ns)) [
      | inl early ↦ Ends-stop lib send now w w sent ctx (turn-early lib send now w ctx r early)
      | inr due ↦
          let come : w.next_ns ≤ now = ltb→ge now w.next_ns due in
          let (o, t, z) = knock_open-IsOpen w w.next_ns s f in
          Ends-same lib send now w (knock_open lib w w.next_ns) sent ctx
            (turn-due lib send now w ctx r due
              ∙ sym (turn-IsOpen (knock_open lib w w.next_ns) ctx o))
            (opened-Ends (now + 1) (knock_open lib w w.next_ns) sent ctx o (omega (arith, t, come))
              (omega arith))
    ]

    loop-Ends :
        (w : Wire lib) (ctx : Ctx)
        → w.src ≡ mac
        → w.fps ≡ rate
        → (w.resting ≡ true)
          ⊎ (w.resting ≡ false)
            × (lib.cycle_len w.master ≡ cycle)
            × (w.slot ≤ cycle)
            × (w.t0_ns ≤ now)
        → Ends lib send now w 0 ctx
    loop-Ends w ctx s f (inl r) = resting-Ends w 0 ctx s f r
    loop-Ends w ctx s f (inr (r, c, l, t)) =
        opened-Ends (now + 1) w 0 ctx
          (record { resting = r; src = s; fps = f; length = c; slot = l }) t (omega arith)

    -- A run returns: for a wire that rests, or whose knock began by now, at a cadence of at most one
    -- slot a nanosecond and before the 64-bit clock wraps, some fuel is enough, and with any more the
    -- loop of the source gives the same wire, count and context.
    pub run_returns :
        (w : Wire lib) (ctx : Ctx)
        → w.src ≡ mac
        → w.fps ≡ rate
        → (w.resting ≡ true)
          ⊎ (w.resting ≡ false)
            × (lib.cycle_len w.master ≡ cycle)
            × (w.slot ≤ cycle)
            × (w.t0_ns ≤ now)
        → (enough : ℕ) × (r : Wire lib × ℕ × Ctx) × ((fuel : ℕ)
            → enough ≤ fuel
            → run lib send fuel w now ctx ≡ some r)
    unfolding run
    run_returns w ctx s f h = elim (Bool-cases (not (is_knocking w.state) || w.fps == 0)) [
      | inl idle ↦ (0, (w, 0, ctx), λ fuel l. rw idle refl)
      | inr runs ↦
          let i = loop-Ends w ctx s f h in
          (
            i.enough,
            (knock_peek lib i.result.0, i.result.1, i.result.2),
            λ fuel l. rw runs (ap (finished lib send) (i.reached fuel l)),
          )
    ]

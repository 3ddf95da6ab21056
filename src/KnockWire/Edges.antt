-- ===== src/KnockWire/Edges.antt =====
-- The edges that a knock's wake ladder spends are those of the wire's one ladder
-- (src/reac_knock_wire.c).
use reac_pw.Prelude.{
  ℕ, ◌≤◌, ◌<◌, ◌≡◌, ◌≢◌, refl, sym, ap, ◌∙◌, Bool, true, Bool-cases, ◌⊎◌, inl, inr, List, [], ◌∷◌,
  All, arith, ◌==◌,
}
use reac_pw.Prelude.Int.{ℤ}
use reac_pw.KnockWire.Interface.{Libreac}
use reac_pw.KnockWire.{Wire}
use reac_pw.KnockWire.Ladder.{KnockLadder, is_fresh, reopened, observed, ladder_step}
use reac_pw.Wake
use reac_pw.Wake.{Event, polls, reopens, max_bounces, run}
use reac_pw.Wake.Ladder.{count_bounces, count_exhausted, run_budget}

module _ (lib : Libreac) where
  -- What one turn of the ladder is shown.
  pub record Shown : Type 0 where
    pub wire : Wire lib
    pub now : ℕ
    pub rx_frames : ℕ
    pub carrier : ℤ
    pub siblings_served : Bool
    pub host_nic : Bool

  abbrev pub turned : KnockLadder → Shown → KnockLadder × Wake.Act
  turned kl s =
      let (kl', act, o) =
        ladder_step lib kl s.wire s.now s.rx_frames s.carrier s.siblings_served s.host_nic in
      (kl', act)

  unfoldable pub acts : KnockLadder → List Shown → List Wake.Act
  acts kl [] = []
  acts kl (s ∷ ss) = let (kl', act) = turned kl s in act ∷ acts kl' ss

  opened_ns-step :
      (w : Wake.Wake) (now : ℕ) (o : Wake.Obs) → (Wake.step w now o).0.opened_ns ≡ w.opened_ns
  unfolding Wake.step
  opened_ns-step w now o = ground arith

  reopened-cases :
      (kl : KnockLadder) (w : Wire lib) (now rx : ℕ)
      → kl.wake.opened_ns ≢ 0
      → ((reopened lib kl w now rx).wake ≡ Wake.reopen kl.wake now)
        ⊎ ((reopened lib kl w now rx).wake ≡ kl.wake)
  reopened-cases kl w now rx o = elim (Bool-cases (kl.wake.opened_ns == 0)) [
    | inl shut ↦ absurd (o (zero_test kl.wake.opened_ns shut))
    | inr opened ↦ elim (Bool-cases (is_fresh lib kl w rx)) [
      | inl fresh ↦ inl (rw (opened, fresh) refl)
      | inr going ↦ inr (rw (opened, going) refl)
    ]
  ]
    where
      zero_test : (n : ℕ) → (n == 0) ≡ true → n ≡ 0
      zero_test n e = ground arith

  opening :
      (kl : KnockLadder) (s : Shown)
      → kl.wake.opened_ns ≡ 0
      → (reopened lib kl s.wire s.now s.rx_frames).wake ≡ Wake.init s.now
  opening kl s o = rw o refl

  opened_ns-init : (now : ℕ) → (Wake.init now).opened_ns ≡ now
  unfolding Wake.init
  opened_ns-init now = refl

  -- The observation of a turn, and the ladder after it.
  abbrev shown_obs : KnockLadder → Shown → Wake.Obs
  shown_obs kl s =
      observed lib (reopened lib kl s.wire s.now s.rx_frames) s.wire s.rx_frames s.carrier
        s.siblings_served s.host_nic

  turned-step :
      (kl : KnockLadder) (s : Shown) (w : Wake.Wake)
      → (reopened lib kl s.wire s.now s.rx_frames).wake ≡ w
      → ((turned kl s).0.wake ≡ (Wake.step w s.now (shown_obs kl s)).0)
        × ((turned kl s).1 ≡ (Wake.step w s.now (shown_obs kl s)).1)
  unfolding ladder_step
  turned-step kl s w e = (
    ap (λ v. (Wake.step v s.now (shown_obs kl s)).0) e,
    ap (λ v. (Wake.step v s.now (shown_obs kl s)).1) e,
  )

  run-polls :
      (w : Wake.Wake) (now : ℕ) (o : Wake.Obs) (es : List Event)
      → (run w (polls now o ∷ es)).1 ≡ (Wake.step w now o).1 ∷ (run (Wake.step w now o).0 es).1
  unfolding run
  run-polls w now o es = refl

  run-reopens :
      (w : Wake.Wake) (now : ℕ) (es : List Event)
      → (run w (reopens now ∷ es)).1 ≡ (run (Wake.reopen w now) es).1
  unfolding run
  run-reopens w now es = refl

  opened_ns-reopen : (w : Wake.Wake) (now : ℕ) → (Wake.reopen w now).opened_ns ≡ now
  unfolding Wake.reopen
  opened_ns-reopen w now = refl

  -- The rest of a ladder's turns from the wake ladder `w` at which the first of them arrives.
  abbrev Simulated : Wake.Wake → List Wake.Act → Type 0
  Simulated w made = (es : List Event) × (made ≡ (run w es).1)

  turned-Simulated :
      (kl : KnockLadder) (s : Shown) (ss : List Shown) (w : Wake.Wake)
      → (reopened lib kl s.wire s.now s.rx_frames).wake ≡ w
      → Simulated (turned kl s).0.wake (acts (turned kl s).0 ss)
      → Simulated w (acts kl (s ∷ ss))
  unfolding acts
  turned-Simulated kl s ss w e (es, q) =
      let (a, b) = turned-step kl s w e in
      (
        polls s.now (shown_obs kl s) ∷ es,
        ap (λ x. x ∷ acts (turned kl s).0 ss) b
            ∙ ap (λ l. (Wake.step w s.now (shown_obs kl s)).1 ∷ l) (q ∙ ap (λ v. (run v es).1) a)
            ∙ sym (run-polls w s.now (shown_obs kl s) es),
      )

  acts-Simulated :
      (kl : KnockLadder) (ss : List Shown)
      → kl.wake.opened_ns ≢ 0
      → All (λ s. 0 < s.now) ss
      → Simulated kl.wake (acts kl ss)
  unfolding acts run
  acts-Simulated kl [] o t = ([], refl)
  acts-Simulated kl (s ∷ ss) o t = elim (reopened-cases kl s.wire s.now s.rx_frames o) [
    | inl fresh ↦
        let (a, b) = turned-step kl s (Wake.reopen kl.wake s.now) fresh in
        let later =
          acts-Simulated (turned kl s).0 ss
            (λ z. nonzero s.now t.0 (
              sym (opened_ns-reopen kl.wake s.now)
              ∙ sym (opened_ns-step (Wake.reopen kl.wake s.now) s.now (shown_obs kl s))
              ∙ ap (λ v. v.opened_ns) (sym a)
              ∙ z))
            t.1 in
        let (es, q) = turned-Simulated kl s ss (Wake.reopen kl.wake s.now) fresh later in
        (reopens s.now ∷ es, q ∙ sym (run-reopens kl.wake s.now es))
    | inr going ↦
        let (a, b) = turned-step kl s kl.wake going in
        turned-Simulated kl s ss kl.wake going (
          acts-Simulated (turned kl s).0 ss
            (λ z. o (
              sym (opened_ns-step kl.wake s.now (shown_obs kl s))
              ∙ ap (λ v. v.opened_ns) (sym a)
              ∙ z))
            t.1)
  ]
    where
      nonzero : (n : ℕ) → 0 < n → n ≢ 0
      nonzero n l e = omega arith

  -- However a wire is knocked, answers, goes quiet and is knocked again, its ladder makes at most two
  -- edges, and says that it is spent at most once, and only after both: the knock's spells reopen one
  -- ladder. The ladder starts closed, and the clock has left zero.
  pub acts_budget :
      (kl : KnockLadder) (ss : List Shown)
      → kl.wake.opened_ns ≡ 0
      → All (λ s. 0 < s.now) ss
      → (count_bounces (acts kl ss) ≤ max_bounces)
        × (count_exhausted (acts kl ss) ≤ 1)
        × (count_exhausted (acts kl ss) ≡ 1 → count_bounces (acts kl ss) ≡ max_bounces)
  unfolding acts
  acts_budget kl [] o t = (omega arith, omega arith, λ e. cc)
  acts_budget kl (s ∷ ss) o t =
      let first : (reopened lib kl s.wire s.now s.rx_frames).wake ≡ Wake.init s.now =
        opening kl s o in
      let (a, b) = turned-step kl s (Wake.init s.now) first in
      let later =
        acts-Simulated (turned kl s).0 ss
          (λ z. nonzero s.now t.0 (
            sym (opened_ns-init s.now)
            ∙ sym (opened_ns-step (Wake.init s.now) s.now (shown_obs kl s))
            ∙ ap (λ v. v.opened_ns) (sym a)
            ∙ z))
          t.1 in
      let (es, q) = turned-Simulated kl s ss (Wake.init s.now) first later in
      rw q (run_budget s.now es)
    where
      nonzero : (n : ℕ) → 0 < n → n ≢ 0
      nonzero n l e = omega arith

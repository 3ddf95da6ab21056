-- ===== src/RxBind/Stable.antt =====
-- What moves the receive gate's lock (src/reac_rx_bind.c), over histories of ticks and hints.
use reac_pw.Prelude.{
  ℕ, ◌+◌, ◌≤◌, ◌<◌, ◌^◌, ◌≡◌, refl, ◌⊎◌, inl, inr, true, false, ◌&&◌, List, [], ◌∷◌, arith, Option,
  none, some, sym,
}
use reac_pw.Prelude.Bytes.{str_eq, str_eq→eq}
use reac_pw.RxBind.{Mac, Bind, Outcome, bind_frames, stable_ns, init, hint, tick}

-- What reaches the gate: one tick of the main loop, or the hunt's answer.
pub data Event : Type 0 where
  ticks : ℕ → ℕ → ℕ → Event
  hints : Mac → Event

module _ (unpack : ℕ → Mac) where
  -- The gate after a history, whose latest event stands first.
  unfoldable pub after : List Event → Bind
  after [] = init
  after (ticks learned frames now ∷ h) = (tick unpack (after h) learned frames now).state
  after (hints mac ∷ h) = (hint (after h) mac).state

  -- Every tick since one at time `since` has named `mac`, up to hints.
  pub data Named (mac : Mac) (since : ℕ) : List Event → Type 0 where
    opens :
        {learned frames now : ℕ} {h : List Event}
        → now ≡ since
        → unpack learned ≡ mac
        → Named mac since (ticks learned frames now ∷ h)
    again :
        {learned frames now : ℕ} {h : List Event}
        → unpack learned ≡ mac
        → Named mac since h
        → Named mac since (ticks learned frames now ∷ h)
    aside : {m : Mac} {h : List Event} → Named mac since h → Named mac since (hints m ∷ h)

  -- A candidate that can still take the lock has been named since its time.
  Timed : List Event → Bind → Type 0
  Timed h b =
      b.have_cand ≡ true → (b.locked && b.from_hint) ≡ false → Named b.cand b.cand_since_ns h

  tick-next :
      (b : Bind) (learned frames now : ℕ)
      → let s = (tick unpack b learned frames now).state in
        (((b.locked && b.from_hint) ≡ true) × (s ≡ b))
        ⊎ (s.have_cand ≡ false)
        ⊎ ((s.cand ≡ unpack learned) × (s.cand_since_ns ≡ now))
        ⊎ ((s ≡ b) × (str_eq b.cand (unpack learned) ≡ true) × (b.have_cand ≡ true))
  unfolding tick
  tick-next b learned frames now = ground arith

  tick-Timed :
      (b : Bind) (learned frames now : ℕ) (h : List Event)
      → Timed h b
      → Timed (ticks learned frames now ∷ h) (tick unpack b learned frames now).state
  unfolding Timed
  tick-Timed b learned frames now h t = elim (tick-next b learned frames now) [
    | inl (held, same) ↦ rw same (λ c f. absurd (cc))
    | inr (inl gone) ↦ λ c f. cc
    | inr (inr (inl (new, since))) ↦ rw (new, since) (λ c f. opens refl refl)
    | inr (inr (inr (same, named, had))) ↦
        rw same (λ c f. again (sym (str_eq→eq b.cand (unpack learned) named)) (t c f))
  ]

  hint-Timed : (b : Bind) (mac : Mac) (h : List Event) → Timed (hints mac ∷ h) (hint b mac).state
  unfolding Timed hint
  hint-Timed b mac h = λ c f. cc

  after-Timed : (h : List Event) → Timed h (after h)
  unfolding after
  after-Timed [] = unfold init Timed in λ c f. cc
  after-Timed (ticks learned frames now ∷ h) =
      tick-Timed (after h) learned frames now h (after-Timed h)
  after-Timed (hints mac ∷ h) = hint-Timed (after h) mac h

  moved-facts :
      (b : Bind) (learned frames now : ℕ)
      → b.cand_since_ns < 2 ^ 64
      → now < 2 ^ 64
      → (tick unpack b learned frames now).moved ≡ true
      → ((b.locked && b.from_hint) ≡ false)
        × (b.have_cand ≡ true)
        × (str_eq b.cand (unpack learned) ≡ true)
        × (bind_frames ≤ frames)
        × (b.cand_since_ns + stable_ns ≤ now)
  unfolding tick
  moved-facts b learned frames now s n m = ground arith

  -- Clock values are 64-bit words.
  abbrev pub Clocked : List Event → Type 0
  Clocked [] = Unit
  Clocked (ticks learned frames now ∷ h) = (now < 2 ^ 64) × Clocked h
  Clocked (hints mac ∷ h) = Clocked h

  tick-since :
      (b : Bind) (learned frames now : ℕ)
      → ((tick unpack b learned frames now).state.cand_since_ns ≡ b.cand_since_ns)
        ⊎ ((tick unpack b learned frames now).state.cand_since_ns ≡ now)
  unfolding tick
  tick-since b learned frames now = ground arith

  hint-since : (b : Bind) (mac : Mac) → (hint b mac).state.cand_since_ns ≡ b.cand_since_ns
  unfolding hint
  hint-since b mac = refl

  since-lt : (h : List Event) → Clocked h → (after h).cand_since_ns < 2 ^ 64
  unfolding after
  since-lt [] c = unfold init in omega arith
  since-lt (ticks learned frames now ∷ h) c =
      ground (arith, since-lt h c.1, tick-since (after h) learned frames now)
  since-lt (hints mac ∷ h) c = ground (arith, hint-since (after h) mac, since-lt h c)

  -- What a tick that does not move the lock leaves as it was.
  abbrev pub Kept : Bind → Outcome → Type 0
  Kept b o =
      (o.moved ≡ false)
      × (o.reset ≡ none)
      × (o.state.locked_mac ≡ b.locked_mac)
      × (o.state.locked ≡ b.locked)
      × (o.state.from_hint ≡ b.from_hint)

  -- The lock is on a MAC, which has been handed to the receive ring.
  abbrev pub LockedTo : Mac → Outcome → Type 0
  LockedTo mac o =
      (o.moved ≡ true)
      × (o.reset ≡ some mac)
      × (o.state.locked_mac ≡ mac)
      × (o.state.locked ≡ true)
      × (o.state.from_hint ≡ false)

  tick-cases :
      (b : Bind) (learned frames now : ℕ)
      → Kept b (tick unpack b learned frames now)
        ⊎ (LockedTo (unpack learned) (tick unpack b learned frames now) × (0 < learned))
  unfolding tick
  tick-cases b learned frames now = ground arith

  moved-since :
      (h : List Event) (learned frames now : ℕ)
      → Clocked (ticks learned frames now ∷ h)
      → (tick unpack (after h) learned frames now).moved ≡ true
      → (((after h).locked && (after h).from_hint) ≡ false)
        × (bind_frames ≤ frames)
        × ((since : ℕ) × Named (unpack learned) since h × (since + stable_ns ≤ now))
  moved-since h learned frames now c m =
      let f = moved-facts (after h) learned frames now (since-lt h c.1) c.0 m in
      (
        f.0,
        f.3,
        (
          (after h).cand_since_ns,
          rw (← str_eq→eq (after h).cand (unpack learned) f.2)
              (unfold Timed in after-Timed h f.1 f.0),
          f.4,
        ),
      )

  -- A tick either leaves the lock as it was and hands nothing to the ring, or it locks to the MAC that
  -- the slave engine has learned and hands that same MAC to the ring: then every tick has named that
  -- MAC for half a second without a break, eight frames were decoded, and the lock was not the hunt's.
  pub moved-Named :
      (h : List Event) (learned frames now : ℕ)
      → Clocked (ticks learned frames now ∷ h)
      → Kept (after h) (tick unpack (after h) learned frames now)
        ⊎ (LockedTo (unpack learned) (tick unpack (after h) learned frames now)
            × (0 < learned)
            × (((after h).locked && (after h).from_hint) ≡ false)
            × (bind_frames ≤ frames)
            × ((since : ℕ) × Named (unpack learned) since h × (since + stable_ns ≤ now)))
  moved-Named h learned frames now c = elim (tick-cases (after h) learned frames now) [
    | inl kept ↦ inl kept
    | inr (to, some_mac) ↦
        let f = moved-since h learned frames now c to.0 in inr (to, some_mac, f.0, f.1, f.2)
  ]

  -- The MAC that the hunt named last, if it named one.
  abbrev pub last_hint : List Event → Option Mac
  last_hint [] = none
  last_hint (ticks learned frames now ∷ h) = last_hint h
  last_hint (hints mac ∷ h) = some mac

  hinted-tick :
      (b : Bind) (learned frames now : ℕ)
      → (b.locked ≡ true)
      → (b.from_hint ≡ true)
      → (tick unpack b learned frames now).state ≡ b
  unfolding tick
  hinted-tick b learned frames now l f = ground arith

  -- Once the hunt has named a MAC, the gate is locked to the one it named last, and no tick moves
  -- it, whatever the slave engine learns.
  pub hint_holds :
      (h : List Event) (mac : Mac)
      → last_hint h ≡ some mac
      → ((after h).locked ≡ true) × ((after h).from_hint ≡ true) × ((after h).locked_mac ≡ mac)
  unfolding after
  hint_holds [] mac e = absurd (cc)
  hint_holds (ticks learned frames now ∷ h) mac e =
      let held = hint_holds h mac e in
      rw (hinted-tick (after h) learned frames now held.0 held.1) held
  hint_holds (hints m ∷ h) mac e = unfold hint in (refl, refl, cc)

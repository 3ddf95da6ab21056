-- ===== src/Wake/Spacing.antt =====
-- The times of the edges that a history of polls makes (src/reac_wake.c).
use reac_pw.Prelude.{
  ℕ, suc, ◌+◌, ◌≤◌, ◌<◌, ◌^◌, ◌≡◌, refl, ◌≢◌, ◌⊎◌, inl, inr, true, false, List, [], ◌∷◌, arith,
}
use reac_pw.Prelude.Words.{sub64}
use reac_pw.Wake.{
  min_pushes, max_bounces, ok, spent, Act, Obs, Wake, Event, none, bounce, exhausted, polls,
  reopens, settle_ns, grace_ns, init, reopen, step, run,
}
use reac_pw.Wake.Ladder.{Licensed, bounce-Licensed, Licensed-bounce}
use reac_pw.Prelude.Int.{pos}

-- The events' clock never runs back and fits its word.
abbrev pub Ticks : ℕ → List Event → Type 0
Ticks t [] = Unit
Ticks t (polls now o ∷ es) = (t ≤ now) × (now < 2 ^ 64) × Ticks now es
Ticks t (reopens now ∷ es) = (t ≤ now) × (now < 2 ^ 64) × Ticks now es

abbrev if_bounce : Act → ℕ → List ℕ → List ℕ
if_bounce none t ts = ts
if_bounce bounce t ts = t ∷ ts
if_bounce exhausted t ts = ts

-- When a history makes its edges.
abbrev pub edge_times : Wake → List Event → List ℕ
edge_times w [] = []
edge_times w (polls now o ∷ es) = if_bounce (step w now o).1 now (edge_times (step w now o).0 es)
edge_times w (reopens now ∷ es) = edge_times (reopen w now) es

-- No time before `lo`, and each a settle window after the one before.
abbrev pub Spaced : ℕ → List ℕ → Type 0
Spaced lo [] = Unit
Spaced lo (t ∷ ts) = (lo ≤ t) × Spaced (t + settle_ns) ts

-- The earliest time of the next edge is no sooner than `lo`.
record Holds (lo t : ℕ) (w : Wake) : Type 0 where
  opened : w.opened_ns ≤ t
  running : 0 < w.opened_ns
  bounced : w.last_bounce_ns ≤ t
  first : w.last_bounce_ns ≡ 0 → lo ≤ w.opened_ns + grace_ns
  again : w.last_bounce_ns ≢ 0 → lo ≤ w.last_bounce_ns + settle_ns

reopen-Holds : (lo t now : ℕ) (w : Wake) → t ≤ now → Holds lo t w → Holds lo now (reopen w now)
unfolding reopen
reopen-Holds lo t now w le h = ground arith

quiet-Holds :
    (lo t now : ℕ) (w : Wake) (o : Obs)
    → t ≤ now
    → (step w now o).1 ≢ bounce
    → Holds lo t w
    → Holds lo now (step w now o).0
unfolding step
quiet-Holds lo t now w o le e h = ground arith

bounce-Holds :
    (lo t now : ℕ) (w : Wake) (o : Obs)
    → t ≤ now
    → now < 2 ^ 64
    → (step w now o).1 ≡ bounce
    → Holds lo t w
    → (lo ≤ now) × Holds (now + settle_ns) now (step w now o).0
bounce-Holds lo t now w o le lt e h =
    let l = bounce-Licensed w now o e in ground (arith, l, Licensed-bounce w now o l)

Act-cases :
    (a : Act) → (a ≡ bounce) ⊎ ((a ≢ bounce) × ((t : ℕ) (ts : List ℕ) → if_bounce a t ts ≡ ts))
Act-cases none = inr ((λ e. cc), λ t ts. refl)
Act-cases bounce = inl refl
Act-cases exhausted = inr ((λ e. cc), λ t ts. refl)

history-Spaced :
    (lo t : ℕ) (w : Wake) (es : List Event)
    → Ticks t es
    → Holds lo t w
    → Spaced lo (edge_times w es)
history-Spaced lo t w [] c h = tt
history-Spaced lo t w (polls now o ∷ es) c h = elim (Act-cases (step w now o).1) [
  | inl e ↦
      let b = bounce-Holds lo t now w o c.0 c.1 e h in
      rw e (b.0, history-Spaced (now + settle_ns) now (step w now o).0 es c.2 b.1)
  | inr (ne, skip) ↦
      rw (skip now (edge_times (step w now o).0 es))
        (history-Spaced lo now (step w now o).0 es c.2 (quiet-Holds lo t now w o c.0 ne h))
]
history-Spaced lo t w (reopens now ∷ es) c h =
    history-Spaced lo now (reopen w now) es c.2 (reopen-Holds lo t now w c.0 h)

init-Holds : (t : ℕ) → 0 < t → Holds (t + grace_ns) t (init t)
unfolding init
init-Holds t p = ground arith

-- On a clock that runs forward from the opening, the first edge comes no sooner than the grace
-- after it, and each later edge no sooner than the settle window after the edge before it.
pub edge_times-Spaced :
    (t : ℕ) (es : List Event) → 0 < t → Ticks t es → Spaced (t + grace_ns) (edge_times (init t) es)
edge_times-Spaced t es p c = history-Spaced (t + grace_ns) t (init t) es c (init-Holds t p)

-- What a silent box with a link shows the ladder: nothing heard, our pushes gone out whole.
pub record IsSilent (o : Obs) : Type 0 where
  pub courting : o.probing ≡ true
  pub link_up : (n : ℕ) × (o.carrier ≡ pos (suc n))
  pub unheard : o.rx_box_frames ≡ 0
  pub ours : o.host_nic ≡ false
  pub alone : o.siblings_served ≡ false
  pub heard_us : 0 < o.tx_frames
  pub pushed : min_pushes ≤ o.scene_pushes

silent-exhausted :
    (w : Wake) (now : ℕ) (o : Obs)
    → IsSilent o
    → max_bounces ≤ w.bounces
    → w.spent_said ≡ false
    → step w now o ≡ (record w { refusal = spent; spent_said = true }, exhausted)
unfolding step
silent-exhausted w now o s b f = ground (arith, s.link_up)

silent-rests :
    (w : Wake) (now : ℕ) (o : Obs)
    → IsSilent o
    → max_bounces ≤ w.bounces
    → w.spent_said ≡ true
    → step w now o ≡ (record w { refusal = spent }, none)
unfolding step
silent-rests w now o s b f = ground (arith, s.link_up)

silent-Licensed :
    (w : Wake) (now : ℕ) (o : Obs)
    → IsSilent o
    → w.bounces < max_bounces
    → (w.last_bounce_ns ≡ 0) ⊎ (settle_ns ≤ sub64 now w.last_bounce_ns)
    → grace_ns ≤ sub64 now w.opened_ns
    → Licensed w now o
silent-Licensed w now o s b l g = record {
  courting = s.courting;
  link_up = s.link_up;
  silent = s.unheard;
  ours = s.ours;
  alone = s.alone;
  heard_us = s.heard_us;
  left = b;
  settled = l;
  pushed = s.pushed;
  waited = g;
}

-- A box that stays silent is woken: polled after the grace, after a settle window and twice more,
-- the ladder makes its two edges, says once that it is spent, and then rests.
pub silent_box_woken :
    (t a b c d : ℕ) (o : Obs)
    → IsSilent o
    → 0 < t
    → t + grace_ns ≤ a
    → a + settle_ns ≤ b
    → b < 2 ^ 64
    → (run (init t) (polls a o ∷ polls b o ∷ polls c o ∷ polls d o ∷ [])).1
      ≡ bounce ∷ bounce ∷ exhausted ∷ none ∷ []
unfolding run init
silent_box_woken t a b c d o s p ga sb lt =
    rw
      (Licensed-bounce (init t) a o
        (silent-Licensed (init t) a o s (omega arith) (inl refl) (omega arith)))
      (rw
        (Licensed-bounce w1 b o
          (silent-Licensed w1 b o s (omega arith) (inr (omega arith)) (omega arith)))
        (rw (silent-exhausted w2 c o s (omega arith) refl) (
          rw (
            silent-rests (record w2 { refusal = spent; spent_said = true }) d o s (omega arith)
              refl))))
  where
    w1 : Wake
    w1 = record (init t) { refusal = ok; bounces = 0 + 1; last_bounce_ns = a }

    w2 : Wake
    w2 = record w1 { refusal = ok; bounces = 0 + 1 + 1; last_bounce_ns = b }

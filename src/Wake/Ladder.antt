-- ===== src/Wake/Ladder.antt =====
-- When reac_wake_step makes an edge, and how often it can (src/reac_wake.c).
use reac_pw.Prelude.{
  ℕ, zero, suc, ◌+◌, ◌≤◌, ◌<◌, ◌≡◌, ap, refl, ◌⊎◌, ◌↔◌, Bool, true, false, List, [], ◌∷◌, arith,
}
use reac_pw.Prelude.Words.{sub64}
use reac_pw.Prelude.Int.{ℤ, pos, negsuc, is_zero, is_negative}
use reac_pw.Wake.{
  Act, Obs, Wake, Event, none, bounce, exhausted, ok, polls, reopens, max_bounces, settle_ns,
  grace_ns, min_pushes, init, reopen, refusal_to_say, step, run,
}

-- The facts that license an edge at `now`.
pub record Licensed (w : Wake) (now : ℕ) (o : Obs) : Type 0 where
  pub courting : o.probing ≡ true
  pub link_up : (n : ℕ) × (o.carrier ≡ pos (suc n))
  pub silent : o.rx_box_frames ≡ 0
  pub ours : o.host_nic ≡ false
  pub alone : o.siblings_served ≡ false
  pub heard_us : 0 < o.tx_frames
  pub left : w.bounces < max_bounces
  pub settled : (w.last_bounce_ns ≡ 0) ⊎ (settle_ns ≤ sub64 now w.last_bounce_ns)
  pub pushed : min_pushes ≤ o.scene_pushes
  pub waited : grace_ns ≤ sub64 now w.opened_ns

carrier_up : (c : ℤ) → is_zero c ≡ false → is_negative c ≡ false → (n : ℕ) × (c ≡ pos (suc n))
carrier_up (pos zero) z n = ground arith
carrier_up (pos (suc k)) z n = (k, refl)
carrier_up (negsuc k) z n = ground arith

bounce-facts :
    (w : Wake) (now : ℕ) (o : Obs)
    → (step w now o).1 ≡ bounce
    → (o.probing ≡ true)
      × (is_zero o.carrier ≡ false)
      × (is_negative o.carrier ≡ false)
      × (o.rx_box_frames ≡ 0)
      × (o.host_nic ≡ false)
      × (o.siblings_served ≡ false)
      × (0 < o.tx_frames)
      × (w.bounces < max_bounces)
      × ((w.last_bounce_ns ≡ 0) ⊎ (settle_ns ≤ sub64 now w.last_bounce_ns))
      × (min_pushes ≤ o.scene_pushes)
      × (grace_ns ≤ sub64 now w.opened_ns)
unfolding step
bounce-facts w now o h = ground arith

pub bounce-Licensed : (w : Wake) (now : ℕ) (o : Obs) → (step w now o).1 ≡ bounce → Licensed w now o
bounce-Licensed w now o h =
    let f = bounce-facts w now o h in
    record {
      courting = f.0;
      link_up = carrier_up o.carrier f.1 f.2;
      silent = f.3;
      ours = f.4;
      alone = f.5;
      heard_us = f.6;
      left = f.7;
      settled = f.8;
      pushed = f.9;
      waited = f.10;
    }

pub Licensed-bounce :
    (w : Wake) (now : ℕ) (o : Obs)
    → Licensed w now o
    → step w now o
      ≡ (record w { refusal = ok; bounces = w.bounces + 1; last_bounce_ns = now }, bounce)
unfolding step
Licensed-bounce w now o l = ground (arith, l.link_up)

-- A poll makes an edge exactly where every fact licenses it, and then counts it and stamps it.
pub bounce_iff :
    (w : Wake) (now : ℕ) (o : Obs)
    → (((step w now o).1 ≡ bounce) ↔ Licensed w now o)
      × (Licensed w now o
          → (step w now o).0
            ≡ record w { refusal = ok; bounces = w.bounces + 1; last_bounce_ns = now })
bounce_iff w now o = (
  (bounce-Licensed w now o, λ l. ap (λ p. p.1) (Licensed-bounce w now o l)),
  λ l. ap (λ p. p.0) (Licensed-bounce w now o l),
)

-- Counting acts in a history.
abbrev pub count_bounces : List Act → ℕ
count_bounces [] = 0
count_bounces (none ∷ xs) = count_bounces xs
count_bounces (bounce ∷ xs) = suc (count_bounces xs)
count_bounces (exhausted ∷ xs) = count_bounces xs

abbrev pub count_exhausted : List Act → ℕ
count_exhausted [] = 0
count_exhausted (none ∷ xs) = count_exhausted xs
count_exhausted (bounce ∷ xs) = count_exhausted xs
count_exhausted (exhausted ∷ xs) = suc (count_exhausted xs)

abbrev bit : Bool → ℕ
bit true = 1
bit false = 0

-- What a state has used up: edges within the bound, and the last word only after the last edge.
record Within (w : Wake) : Type 0 where
  edges : w.bounces ≤ max_bounces
  last_word : w.spent_said ≡ true → w.bounces ≡ max_bounces

step-Within : (w : Wake) (now : ℕ) (o : Obs) → Within w → Within (step w now o).0
unfolding step
step-Within w now o i = ground arith

step-counts :
    (w : Wake) (now : ℕ) (o : Obs)
    → Within w
    → ((step w now o).0.bounces ≡ w.bounces + count_bounces ((step w now o).1 ∷ []))
      × (bit (step w now o).0.spent_said
          ≡ bit w.spent_said + count_exhausted ((step w now o).1 ∷ []))
unfolding step
step-counts w now o i = ground arith

count_bounces-cons :
    (a : Act) (xs : List Act) → count_bounces (a ∷ xs) ≡ count_bounces (a ∷ []) + count_bounces xs
count_bounces-cons a xs = ground arith

count_exhausted-cons :
    (a : Act) (xs : List Act)
    → count_exhausted (a ∷ xs) ≡ count_exhausted (a ∷ []) + count_exhausted xs
count_exhausted-cons a xs = ground arith

record Accounts (w : Wake) (r : Wake × List Act) : Type 0 where
  kept : Within r.0
  edges : r.0.bounces ≡ w.bounces + count_bounces r.1
  words : bit r.0.spent_said ≡ bit w.spent_said + count_exhausted r.1

reopen-Within : (w : Wake) (now : ℕ) → Within w → Within (reopen w now)
unfolding reopen
reopen-Within w now i = record { edges = i.edges; last_word = i.last_word }

run-Accounts : (w : Wake) (es : List Event) → Within w → Accounts w (run w es)
unfolding run reopen
run-Accounts w [] i = record { kept = i; edges = omega arith; words = omega arith }
run-Accounts w (polls now o ∷ es) i =
    let w' = (step w now o).0 in
    let rest = run-Accounts w' es (step-Within w now o i) in
    let c = step-counts w now o i in
    record {
      kept = rest.kept;
      edges = omega (arith, rest.edges, c.0, count_bounces-cons (step w now o).1 (run w' es).1);
      words = omega (arith, rest.words, c.1, count_exhausted-cons (step w now o).1 (run w' es).1);
    }
run-Accounts w (reopens now ∷ es) i =
    let rest = run-Accounts (reopen w now) es (reopen-Within w now i) in
    record { kept = rest.kept; edges = rest.edges; words = rest.words }

-- However a segment is polled and however often its ladder is reopened, it makes at most two edges
-- and says that it is spent at most once, and only after both edges.
pub run_budget :
    (t : ℕ) (es : List Event)
    → let acts = (run (init t) es).1 in
      (count_bounces acts ≤ max_bounces)
      × (count_exhausted acts ≤ 1)
      × (count_exhausted acts ≡ 1 → count_bounces acts ≡ max_bounces)
unfolding init
run_budget t es =
    ground (arith, run-Accounts (init t) es (record { edges = omega arith; last_word = λ e. cc }))

step-said : (w : Wake) (now : ℕ) (o : Obs) → (step w now o).0.said ≡ w.said
unfolding step
step-said w now o = ground arith

-- A refusal that was said is not said again while the same fact refuses; after a reopening it is.
pub refusal_to_say_once :
    (w : Wake) (now later : ℕ) (o p : Obs)
    → (refusal_to_say w).1 ≡ true
    → (step (refusal_to_say w).0 now o).0.refusal ≡ w.refusal
    → (step (reopen w later) later p).0.refusal ≡ w.refusal
    → ((refusal_to_say (step (refusal_to_say w).0 now o).0).1 ≡ false)
      × ((refusal_to_say (step (reopen w later) later p).0).1 ≡ true)
unfolding refusal_to_say reopen
refusal_to_say_once w now later o p s again fresh =
    ground (arith, step-said (refusal_to_say w).0 now o, step-said (reopen w later) later p)

-- ===== src/Wake/Tests.antt =====
-- Runs of the wake ladder (src/reac_wake.c).
use reac_pw.Prelude.{ℕ, ◌+◌, ◌*◌, ◌≤◌, ◌≡◌, refl, true, false, List, [], ◌∷◌, arith}
use reac_pw.Prelude.Words.{second}
use reac_pw.Prelude.Int.{pos}
use reac_pw.Wake.{
  Obs, Wake, Event, none, bounce, exhausted, polls, reopens, ok, box_is_talking, max_bounces,
  grace_ns, init, reopen, step, run,
}
use reac_pw.Wake.Ladder.{count_bounces, count_exhausted, run_budget}
use reac_pw.Wake.Spacing.{Spaced, edge_times, IsSilent, edge_times-Spaced, silent_box_woken}

abbrev silent : Obs
silent = record {
  probing = true;
  carrier = pos 1;
  rx_box_frames = 0;
  scene_pushes = 3;
  siblings_served = false;
  host_nic = false;
  tx_frames = 40;
}

abbrev talking : Obs
talking = record silent { rx_box_frames = 7 }

abbrev at : ℕ → ℕ
at s = s * second

silent-IsSilent : IsSilent silent
silent-IsSilent = record {
  courting = refl;
  link_up = (0, refl);
  unheard = refl;
  ours = refl;
  alone = refl;
  heard_us = omega arith;
  pushed = omega arith;
}

abbrev history : List Event
history =
    polls (at 13) silent
    ∷ reopens (at 14)
    ∷ polls (at 30) talking
    ∷ polls (at 40) silent
    ∷ polls (at 41) silent
    ∷ polls (at 42) silent
    ∷ []

run_budget_example :
    let acts = (run (init (at 1)) history).1 in
    (count_bounces acts ≤ max_bounces)
    × (count_exhausted acts ≤ 1)
    × (count_exhausted acts ≡ 1 → count_bounces acts ≡ max_bounces)
run_budget_example = run_budget (at 1) history

history_acts : (run (init (at 1)) history).1 ≡ bounce ∷ none ∷ bounce ∷ exhausted ∷ none ∷ []
unfolding run init reopen step
history_acts = refl

edge_times-Spaced_example : Spaced (at 1 + grace_ns) (edge_times (init (at 1)) history)
edge_times-Spaced_example = edge_times-Spaced (at 1) history (omega arith) (omega arith)

silent_box_woken_example :
    (run (init (at 1)) (
      polls (at 13) silent
      ∷ polls (at 33) silent
      ∷ polls (at 34) silent
      ∷ polls (at 35) silent
      ∷ [])).1
    ≡ bounce ∷ bounce ∷ exhausted ∷ none ∷ []
silent_box_woken_example =
    silent_box_woken (at 1) (at 13) (at 33) (at 34) (at 35) silent silent-IsSilent (omega arith)
      (omega arith) (omega arith) (omega arith)

abbrev refused : Wake
refused = record {
  opened_ns = at 1;
  last_bounce_ns = 0;
  bounces = 0;
  spent_said = false;
  refusal = box_is_talking;
  said = ok;
}

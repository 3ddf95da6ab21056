-- ===== src/EmptyMaster/Tests.antt =====
-- Runs of the empty-master watch (src/reac_empty_master.c).
use reac_pw.Prelude.{ℕ, ◌*◌, ◌+◌, ◌≤◌, ◌≡◌, ◌↔◌, ◌⊎◌, ◌++◌, Bool, true, false, List, [], ◌∷◌, arith}
use reac_pw.Prelude.Words.{second}
use reac_pw.EmptyMaster.{Poll, quiet_ns, init, step, run}
use reac_pw.EmptyMaster.Quiet.{last_move, ever_past, quiet_stops}

abbrev poll : ℕ → ℕ → Bool → Poll
poll s rx past = record { now = s * second; rx = rx; past = past }

abbrev silence : List Poll
silence = poll 2 6 false ∷ poll 3 6 false ∷ []

-- The count moved at 2 s, and the poll is at 4 s.
quiet_stops_example : ((step (run (init second 5) silence).0 (4 * second) 6 false).1 ≡ true) ↔ (
    (false ≡ false)
    × ((ever_past silence ≡ true)
        ⊎ (last_move second 5 (silence ++ poll 4 6 false ∷ []) + quiet_ns ≤ 4 * second)))
quiet_stops_example = quiet_stops second 5 silence (poll 4 6 false) (omega arith) (omega arith)

-- ===== src/Recover/Tests.antt =====
-- Runs of the recovery ladder (src/reac_node_recover.c).
use reac_pw.Prelude.{ℕ, zero, suc, ◌≡◌, refl, Bool, true, false, List, [], ◌∷◌}
use reac_pw.Recover.{NodeRecover, wait, rebuild, init, window, step, run}
use reac_pw.Recover.Schedule.{timetable, run-timetable}

abbrev absences : ℕ → List Bool → List Bool
absences zero ticks = ticks
absences (suc n) ticks = false ∷ absences n ticks

run-timetable_example :
    run init (absences 10 (true ∷ absences 10 []))
    ≡ timetable 0 (absences 10 (true ∷ absences 10 []))
run-timetable_example = run-timetable (absences 10 (true ∷ absences 10 []))

rebuilt_at_ten :
    run init (absences 11 [])
    ≡ wait ∷ wait ∷ wait ∷ wait ∷ wait ∷ wait ∷ wait ∷ wait ∷ wait ∷ rebuild ∷ wait ∷ []
unfolding run init step window
rebuilt_at_ten = refl

abbrev nearly : NodeRecover
nearly = record { absent = 39; attempts = 2; gave_up = false }

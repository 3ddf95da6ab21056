-- ===== src/Recover/Schedule.antt =====
-- The ladder of src/reac_node_recover.c against a timetable.
use reac_pw.Prelude.{
  ℕ, zero, suc, ◌+◌, ◌≤◌, ◌<◌, ◌≡◌, refl, ◌⊎◌, inr, Bool, true, false, ◌||◌, List, [], ◌∷◌, arith,
  ◌==◌, if◌then◌else◌, ap,
}
use reac_pw.Recover.{
  Act, NodeRecover, wait, rebuild, give_up, max_attempts, init, window, step, run,
}

-- What an absence asks for at its k-th tick: a rebuild at ticks 10, 30, 70, 150 and 310, the one
-- give-up at tick 470, and nothing at any other.
abbrev pub due : ℕ → Act
due k =
    if k == 10 || k == 30 || k == 70 || k == 150 || k == 310
    then rebuild
    else if k == 470
    then give_up
    else wait

-- The acts owed to a history of polls, where the current absence has lasted k ticks.
abbrev pub timetable : ℕ → List Bool → List Act
timetable k [] = []
timetable k (true ∷ ticks) = wait ∷ timetable 0 ticks
timetable k (false ∷ ticks) = due (suc k) ∷ timetable (suc k) ticks

-- The ticks behind a ladder that has made so many attempts.
abbrev behind : ℕ → ℕ
behind a =
    if a == 0
    then 0
    else if a == 1
    then 10
    else if a == 2
    then 30
    else if a == 3
    then 70
    else if a == 4
    then 150
    else 310

abbrev span : ℕ → ℕ
span a =
    if a == 0 then 10 else if a == 1 then 20 else if a == 2 then 40 else if a == 3 then 80 else 160

window-span : (r : NodeRecover) → r.attempts ≤ max_attempts → window r ≡ span r.attempts
unfolding window
window-span r h = go r.attempts r refl h
  where
    go : (a : ℕ) (q : NodeRecover) → q.attempts ≡ a → a ≤ max_attempts → window q ≡ span q.attempts
    go zero q e h = rw e
    go (suc zero) q e h = rw e
    go (suc (suc zero)) q e h = rw e
    go (suc (suc (suc zero))) q e h = rw e
    go (suc (suc (suc (suc zero)))) q e h = rw e
    go (suc (suc (suc (suc (suc zero))))) q e h = rw e
    go (suc (suc (suc (suc (suc (suc n)))))) q e h = omega arith

-- Where an absence of k ticks has brought the ladder.
abbrev Stands : ℕ → NodeRecover → Type 0
Stands k r =
    ((r.gave_up ≡ true) × (470 ≤ k))
    ⊎ ((r.gave_up ≡ false)
        × (r.attempts ≤ max_attempts)
        × (behind r.attempts + r.absent ≡ k)
        × (r.absent < span r.attempts))

tick-Stands :
    (k : ℕ) (r : NodeRecover)
    → Stands k r
    → ((step r false).1 ≡ due (suc k)) × Stands (suc k) (step r false).0
unfolding step
tick-Stands k r s = ground (arith, window-span r)

back-Stands : (r : NodeRecover) → ((step r true).1 ≡ wait) × Stands 0 (step r true).0
unfolding step init
back-Stands r = ground arith

run-Stands :
    (k : ℕ) (r : NodeRecover) (ticks : List Bool) → Stands k r → run r ticks ≡ timetable k ticks
unfolding run
run-Stands k r [] s = refl
run-Stands k r (true ∷ ticks) s =
    let b = back-Stands r in rw b.0 (ap (◌∷◌ wait) (run-Stands 0 (step r true).0 ticks b.1))
run-Stands k r (false ∷ ticks) s =
    let b = tick-Stands k r s in
    rw b.0 (ap (◌∷◌ (due (suc k))) (run-Stands (suc k) (step r false).0 ticks b.1))

-- Whatever the graph says of a segment and for how long, the ladder acts by the timetable: each
-- absence is rebuilt at its ticks 10, 30, 70, 150 and 310, given up once at tick 470, and left
-- alone otherwise, and a tick on the graph starts the next absence's timetable from the beginning.
pub run-timetable : (ticks : List Bool) → run init ticks ≡ timetable 0 ticks
unfolding init
run-timetable ticks = run-Stands 0 init ticks (inr (refl, omega arith, refl, omega arith))

-- ===== src/EmptyMaster/Quiet.antt =====
-- When src/reac_empty_master.c stops a stream, over histories of polls.
use reac_pw.Prelude.{
  ℕ, ◌+◌, ◌≤◌, ◌<◌, ◌↔◌, ◌⊎◌, inl, inr, ◌==◌, Bool-cases, ap, ◌∙◌, ◌++◌, ◌||◌, if◌then◌else◌, ◌^◌,
  ◌≡◌, refl, ◌≢◌, not, Bool, true, false, List, [], ◌∷◌, arith, map, All,
}
use reac_pw.EmptyMaster.{EmptyMaster, Poll, quiet_ns, init, step, run}

-- Polls of a courting master within the quiet time of `t`, on a clock that runs forward from `from`.
abbrev pub CourtingSoon : ℕ → ℕ → List Poll → Type 0
CourtingSoon t from [] = Unit
CourtingSoon t from (p ∷ ps) =
    (from ≤ p.now)
    × (p.now < t + quiet_ns)
    × (p.now < 2 ^ 64)
    × (p.past ≡ false)
    × CourtingSoon t p.now ps

abbrev pub AllFalse : List Bool → Type 0
AllFalse = All (λ b. b ≡ false)

soon-AllFalse :
    (e : EmptyMaster) (t from : ℕ) (ps : List Poll)
    → e.was_past ≡ false
    → t ≤ e.moved_ns
    → e.moved_ns ≤ from
    → CourtingSoon t from ps
    → AllFalse (run e ps).1
unfolding run step
soon-AllFalse e t from [] w l h c = tt
soon-AllFalse e t from (p ∷ ps) w l h c = (
  ground arith,
  soon-AllFalse (step e p.now p.rx p.past).0 t p.now ps (ground arith) (ground arith) (ground arith)
      c.4,
)

-- A master that has had no box yet is never stopped within two seconds of its opening, nor within
-- two seconds of a poll at which its count of box frames had moved.
pub courting_waits :
    (e : EmptyMaster) (t rx now rx' : ℕ) (ps qs : List Poll)
    → CourtingSoon t t ps
    → e.was_past ≡ false
    → rx' ≢ e.rx_last
    → CourtingSoon now now qs
    → AllFalse (run (init t rx) ps).1 × AllFalse (run (step e now rx' false).0 qs).1
unfolding init step
courting_waits e t rx now rx' ps qs c w m d = (
  soon-AllFalse (init t rx) t t ps refl (omega arith) (omega arith) c,
  soon-AllFalse (step e now rx' false).0 now now qs (ground arith) (ground arith) (ground arith) d,
)

-- When the count of box frames last differed from the one before, `t` where it never has.
abbrev pub last_move : ℕ → ℕ → List Poll → ℕ
last_move t rx [] = t
last_move t rx (p ∷ ps) = last_move (if p.rx == rx then t else p.now) p.rx ps

abbrev pub last_rx : ℕ → List Poll → ℕ
last_rx rx [] = rx
last_rx rx (p ∷ ps) = last_rx p.rx ps

-- Some poll found the master past probing.
abbrev pub ever_past : List Poll → Bool
ever_past [] = false
ever_past (p ∷ ps) = p.past || ever_past ps

last_move-append :
    (t rx : ℕ) (ps : List Poll) (p : Poll)
    → last_move t rx (ps ++ p ∷ []) ≡ (if p.rx == last_rx rx ps then last_move t rx ps else p.now)
last_move-append t rx [] p = refl
last_move-append t rx (q ∷ ps) p = last_move-append (if q.rx == rx then t else q.now) q.rx ps p

-- What the watch knows after a history: whether there was a box, and, until there was, the last count
-- and when it moved.
pub record Tracks (e : EmptyMaster) (t rx : ℕ) (ps : List Poll) (e' : EmptyMaster) : Type 0 where
  pub past : e'.was_past ≡ (e.was_past || ever_past ps)
  pub rx_last : e'.rx_last ≡ last_rx rx ps
  pub moved_ns : e'.was_past ≡ false → e'.moved_ns ≡ last_move t rx ps

step-past :
    (e : EmptyMaster) (p : Poll) → (step e p.now p.rx p.past).0.was_past ≡ (e.was_past || p.past)
unfolding step
step-past e p = ground arith

step-rx : (e : EmptyMaster) (p : Poll) → (step e p.now p.rx p.past).0.rx_last ≡ p.rx
unfolding step
step-rx e p = ground arith

run-Tracks :
    (e : EmptyMaster) (t : ℕ) (ps : List Poll)
    → (e.was_past ≡ false → e.moved_ns ≡ t)
    → Tracks e t e.rx_last ps (run e ps).0
unfolding run
run-Tracks e t [] m = record { past = ground arith; rx_last = refl; moved_ns = m }
run-Tracks e t (p ∷ ps) m =
    let more =
      run-Tracks (step e p.now p.rx p.past).0 (if p.rx == e.rx_last then t else p.now) ps
        (unfold step in λ w. ground (arith, m)) in
    record {
      past = more.past ∙ ground (arith, step-past e p);
      rx_last = more.rx_last ∙ ap (λ r. last_rx r ps) (step-rx e p);
      moved_ns = λ w.
          more.moved_ns w
          ∙ ap (λ r. last_move (if p.rx == e.rx_last then t else p.now) r ps) (step-rx e p);
    }

step_stops :
    (e : EmptyMaster) (p : Poll) (was : Bool) (m : ℕ)
    → e.was_past ≡ was
    → (e.was_past ≡ false → (if p.rx == e.rx_last then e.moved_ns else p.now) ≡ m)
    → m ≤ p.now
    → p.now < 2 ^ 64
    → ((step e p.now p.rx p.past).1 ≡ true)
      ↔ ((p.past ≡ false) × ((was ≡ true) ⊎ (m + quiet_ns ≤ p.now)))
unfolding step
step_stops e p was m w h l lt = elim (Bool-cases e.was_past) [
  | inl past ↦ ground (arith, past, w)
  | inr courting ↦ ground (arith, h courting, courting, w)
]

-- After any history of polls since the opening, a poll stops the master exactly where it finds it
-- courting, and either an earlier poll found it past probing (the box is lost), or two seconds or
-- more have passed since the count of box frames last moved or, where it never has, since the opening;
-- on a clock of 64 bits that does not run back behind that moment.
pub quiet_stops :
    (t rx : ℕ) (ps : List Poll) (p : Poll)
    → last_move t rx (ps ++ p ∷ []) ≤ p.now
    → p.now < 2 ^ 64
    → ((step (run (init t rx) ps).0 p.now p.rx p.past).1 ≡ true) ↔ (
        (p.past ≡ false)
        × ((ever_past ps ≡ true) ⊎ (last_move t rx (ps ++ p ∷ []) + quiet_ns ≤ p.now)))
unfolding init
quiet_stops t rx ps p l lt =
    let known : Tracks (init t rx) t rx ps (run (init t rx) ps).0 =
      run-Tracks (init t rx) t ps (λ w. refl) in
    let e = (run (init t rx) ps).0 in
    step_stops e p (ever_past ps) (last_move t rx (ps ++ p ∷ [])) known.past
      (λ w. rw (last_move-append t rx ps p, known.rx_last, known.moved_ns w) refl) l lt

-- Once a master has been past probing, a poll stops it if and only if it finds it back in probing,
-- whatever is heard.
pub lost_box_stops :
    (e : EmptyMaster) (ps : List Poll) → e.was_past ≡ true → (run e ps).1 ≡ map (λ p. not p.past) ps
unfolding run step
lost_box_stops e [] w = refl
lost_box_stops e (p ∷ ps) w = ground (arith, lost_box_stops (step e p.now p.rx p.past).0 ps)

-- ===== src/EmptyMaster.antt =====
-- src/reac_empty_master.c and src/reac_empty_master.h: a master that streams at nobody stops.
-- Times and counts are `uint64_t`.
pub mod Quiet
mod Tests
use reac_pw.Prelude.{ℕ, ◌*◌, Bool, true, false, not, List, [], ◌∷◌, leb, ◌==◌, if◌then◌else◌}
use reac_pw.Prelude.Words.{sub64, second}

abbrev pub quiet_ns : ℕ
quiet_ns = 2 * second

pub record EmptyMaster : Type 0 where
  pub rx_last : ℕ
  pub moved_ns : ℕ
  pub was_past : Bool

unfoldable pub init : ℕ → ℕ → EmptyMaster
init now rx = record { rx_last = rx; moved_ns = now; was_past = false }

unfoldable pub step : EmptyMaster → ℕ → ℕ → Bool → EmptyMaster × Bool
step e now rx past_probing =
    let moved = not (rx == e.rx_last) in
    let e' = record e { rx_last = rx; moved_ns = if moved then now else e.moved_ns } in
    if past_probing
    then (record e' { was_past = true; moved_ns = now }, false)
    else if e'.was_past
    then (e', true)
    else (e', leb quiet_ns (sub64 now e'.moved_ns))

-- One poll of a running master.
pub record Poll : Type 0 where
  pub now : ℕ
  pub rx : ℕ
  pub past : Bool

unfoldable pub run : EmptyMaster → List Poll → EmptyMaster × List Bool
run e [] = (e, [])
run e (p ∷ ps) =
    let (e', stop) = step e p.now p.rx p.past in let (e'', stops) = run e' ps in (e'', stop ∷ stops)

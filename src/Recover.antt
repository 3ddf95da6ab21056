-- ===== src/Recover.antt =====
-- src/reac_node_recover.c and src/reac_node_recover.h: the bounded ladder that rebuilds a segment's
-- nodes when they are missing from the graph. The counters start at 0 and only count up, so they are
-- natural numbers.
pub mod Schedule
pub mod Pair
mod Tests
use reac_pw.Prelude.{
  ℕ, suc, ◌+◌, ◌-◌, ◌*◌, ◌^◌, Bool, true, false, not, ◌&&◌, List, [], ◌∷◌, ltb, leb, ◌==◌,
  if◌then◌else◌,
}
use reac_pw.Prelude.Bytes.{CString, codes}

abbrev pub grace_ticks : ℕ
grace_ticks = 10

abbrev pub max_attempts : ℕ
max_attempts = 5

abbrev pub max_shift : ℕ
max_shift = 4

pub data Act : Type 0 where
  wait rebuild give_up : Act

pub record NodeRecover : Type 0 where
  pub absent : ℕ
  pub attempts : ℕ
  pub gave_up : Bool

unfoldable pub init : NodeRecover
init = record { absent = 0; attempts = 0; gave_up = false }

unfoldable pub window : NodeRecover → ℕ
window r =
    let shift = if ltb r.attempts max_shift then r.attempts else max_shift in
    grace_ticks * 2 ^ shift

unfoldable pub spent : NodeRecover → ℕ
spent r =
    if r.attempts == 0
    then grace_ticks
    else let prev = r.attempts - 1 in
      let shift = if ltb prev max_shift then prev else max_shift in grace_ticks * 2 ^ shift

unfoldable pub step : NodeRecover → Bool → NodeRecover × Act
step r on_graph =
    if on_graph
    then (init, wait)
    else if r.gave_up
    then (r, wait)
    else if ltb (r.absent + 1) (window r)
    then (record r { absent = r.absent + 1 }, wait)
    else if leb max_attempts r.attempts
    then (record r { absent = 0; gave_up = true }, give_up)
    else (record r { absent = 0; attempts = r.attempts + 1 }, rebuild)

pub record PairVerdict : Type 0 where
  pub act : Act
  pub src_gone : Bool
  pub sink_gone : Bool
  pub why : CString

unfoldable pub step_pair : NodeRecover → Bool → CString → Bool → CString → NodeRecover × PairVerdict
step_pair r src_on src_why sink_on sink_why =
    let (r', act) = step r (src_on && sink_on) in
    (
      r',
      record {
        act = act;
        src_gone = not src_on;
        sink_gone = not sink_on;
        why = if not src_on then src_why else if not sink_on then sink_why else src_why;
      },
    )

unfoldable pub pair_name : PairVerdict → CString
pair_name v =
    if v.src_gone && not v.sink_gone
    then codes "reac-capture"
    else if v.sink_gone && not v.src_gone
    then codes "reac-playback"
    else codes "reac-capture and reac-playback"

-- The polls of one segment, each with what the graph says of it.
unfoldable pub run : NodeRecover → List Bool → List Act
run r [] = []
run r (on ∷ ticks) = let (r', a) = step r on in a ∷ run r' ticks

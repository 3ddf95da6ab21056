-- ===== src/Wake.antt =====
-- src/reac_wake.c and src/reac_wake.h: the ladder that wakes a dropped box by one PHY edge. Times
-- are `uint64_t` nanoseconds, subtracted with their wrap; `int` flags are read as Booleans.
pub mod Ladder
pub mod Spacing
mod Tests
use reac_pw.Prelude.{
  ℕ, ◌+◌, ◌*◌, Bool, true, false, not, ◌&&◌, ◌||◌, List, [], ◌∷◌, ltb, leb, ◌==◌, if◌then◌else◌,
}
use reac_pw.Prelude.Words.{sub64, u32, second}
use reac_pw.Prelude.Int.{ℤ, is_zero, is_negative}

abbrev pub min_pushes : ℕ
min_pushes = 3

abbrev pub grace_ns : ℕ
grace_ns = 12 * second

abbrev pub settle_ns : ℕ
settle_ns = 20 * second

abbrev pub max_bounces : ℕ
max_bounces = 2

pub data Act : Type 0 where
  none bounce exhausted : Act

pub data Refusal : Type 0 where
  ok not_probing no_carrier carrier_unknown box_is_talking is_host_nic nothing_sent : Refusal
  push_not_proven settling sibling_served spent : Refusal

-- The enumerator's value.
abbrev pub value : Refusal → ℕ
value ok = 0
value not_probing = 1
value no_carrier = 2
value carrier_unknown = 3
value box_is_talking = 4
value is_host_nic = 5
value nothing_sent = 6
value push_not_proven = 7
value settling = 8
value sibling_served = 9
value spent = 10

pub record Obs : Type 0 where
  pub probing : Bool
  pub carrier : ℤ
  pub rx_box_frames : ℕ
  pub scene_pushes : ℕ
  pub siblings_served : Bool
  pub host_nic : Bool
  pub tx_frames : ℕ

pub record Wake : Type 0 where
  pub opened_ns : ℕ
  pub last_bounce_ns : ℕ
  pub bounces : ℕ
  pub spent_said : Bool
  pub refusal : Refusal
  pub said : Refusal

unfoldable pub init : ℕ → Wake
init now = record {
  opened_ns = now;
  last_bounce_ns = 0;
  bounces = 0;
  spent_said = false;
  refusal = ok;
  said = ok;
}

unfoldable pub reopen : Wake → ℕ → Wake
reopen w now = record w { opened_ns = now; refusal = ok; said = ok }

unfoldable pub refusal_to_say : Wake → Wake × Bool
refusal_to_say w =
    if value w.refusal == 0 || value w.refusal == value w.said
    then (w, false)
    else (record w { said = w.refusal }, true)

abbrev pub refuse : Wake → Refusal → Wake × Act
refuse w r = (record w { refusal = r }, none)

-- The rungs below the facts about the wire: the edges left, the settling, the cheap rung.
abbrev pub step_quiet : Wake → ℕ → Obs → Wake × Act
step_quiet w now o =
    if leb max_bounces w.bounces
    then (if w.spent_said
        then refuse w spent
        else (record w { refusal = spent; spent_said = true }, exhausted))
    else if not (w.last_bounce_ns == 0) && ltb (sub64 now w.last_bounce_ns) settle_ns
    then refuse w settling
    else if ltb o.scene_pushes min_pushes || ltb (sub64 now w.opened_ns) grace_ns
    then refuse w push_not_proven
    else (record w { refusal = ok; bounces = u32 (w.bounces + 1); last_bounce_ns = now }, bounce)

unfoldable pub step : Wake → ℕ → Obs → Wake × Act
step w now o =
    if not o.probing
    then refuse w not_probing
    else if is_zero o.carrier
    then refuse w no_carrier
    else if is_negative o.carrier
    then refuse w carrier_unknown
    else if ltb 0 o.rx_box_frames
    then refuse w box_is_talking
    else if o.host_nic
    then refuse w is_host_nic
    else if o.tx_frames == 0
    then refuse w nothing_sent
    else if o.siblings_served
    then refuse w sibling_served
    else step_quiet w now o

-- One thing that the daemon does to a segment's ladder: a poll of it, or a fresh spell.
pub data Event : Type 0 where
  polls : ℕ → Obs → Event
  reopens : ℕ → Event

unfoldable pub run : Wake → List Event → Wake × List Act
run w [] = (w, [])
run w (polls now o ∷ es) =
    let (w', a) = step w now o in let (w'', acts) = run w' es in (w'', a ∷ acts)
run w (reopens now ∷ es) = run (reopen w now) es

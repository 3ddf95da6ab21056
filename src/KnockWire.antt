-- ===== src/KnockWire.antt =====
-- src/reac_knock_wire.c and src/reac_knock_wire.h: what a silent wire is sent. A 64-bit sum wraps
-- where the source's does; `fps` is a natural number, since a negative one is read as none.
pub mod Interface
pub mod Run
pub mod Ladder
pub mod Backoff
pub mod Spell
pub mod Edges
pub mod Timing
pub mod Loop
pub mod Fuel
pub mod Silence
mod Tests
use reac_pw.Prelude.{
  ℕ, zero, suc, ◌+◌, ◌-◌, ◌*◌, ◌/◌, Bool, true, false, not, ◌&&◌, ◌||◌, Option, none, some, List,
  [], ◌∷◌, ◌++◌, ltb, leb, ◌==◌, if◌then◌else◌, length, take, drop,
}
use reac_pw.Prelude.Words.{u32, u64, sub64, second}
use reac_pw.Prelude.Bytes.{CString, codes}
use reac_pw.KnockWire.Interface.{Libreac, Emit, filler}

abbrev pub period_max_ns : ℕ
period_max_ns = 30 * second

abbrev pub late_ns : ℕ
late_ns = 8 * 1_000_000

abbrev pub max_answers : ℕ
max_answers = 4

pub data WireState : Type 0 where
  listening knocking answered trunk : WireState

pub data Act : Type 0 where
  nothing knock hush becomes_trunk untrunk : Act

abbrev pub state_name : WireState → CString
state_name listening = codes "listening"
state_name knocking = codes "knocking"
state_name answered = codes "answered"
state_name trunk = codes "trunk"

abbrev pub is_filler : Emit → Bool
is_filler filler = true
is_filler _ = false

-- Doubled `n` times, while below the ceiling.
abbrev pub doubled : ℕ → ℕ → ℕ
doubled zero p = p
doubled (suc n) p = let rest = doubled n (u64 (p * 2)) in if ltb p period_max_ns then rest else p

abbrev pub capped : ℕ → ℕ
capped p = if ltb p period_max_ns then p else period_max_ns

abbrev pub is_trunk : WireState → Bool
is_trunk trunk = true
is_trunk _ = false

abbrev pub is_knocking : WireState → Bool
is_knocking knocking = true
is_knocking _ = false

abbrev pub is_answered : WireState → Bool
is_answered answered = true
is_answered _ = false

abbrev pub no_address : CString
no_address = 2 ∷ 0 ∷ 0 ∷ 0 ∷ 0 ∷ 0 ∷ []

module _ (lib : Libreac) where
  pub record Wire : Type 0 where
    pub state : WireState
    pub licence : lib.Licence
    pub master : lib.Master
    pub src : CString
    pub fps : ℕ
    pub host : Bool
    pub unanswered : ℕ
    pub resting : Bool
    pub next_ns : ℕ
    pub t0_ns : ℕ
    pub slot : ℕ
    pub due_ns : ℕ
    pub sent : ℕ
    pub spell_sent : ℕ
    pub send_errors : ℕ
    pub late : ℕ
    pub pushes : ℕ
    pub cycles : ℕ
    pub head_sent : Bool
    pub chunks_sent : ℕ
    pub knocks : ℕ
    pub last_heard_ns : ℕ
    pub answer : List CString
    pub answer_src : CString
    pub answered_cycle : ℕ

  abbrev pub backoff_reset : Wire → Wire
  backoff_reset w = record w { unanswered = 0 }

  -- `zeroed` is the master that memset leaves: none is stepped before a knock opens one.
  unfoldable pub init : lib.Master → CString → ℕ → ℕ → Wire
  init zeroed src fps now = record {
    state = listening;
    licence = lib.licence_init now;
    master = zeroed;
    src = src;
    fps = fps;
    host = false;
    unanswered = 0;
    resting = false;
    next_ns = 0;
    t0_ns = 0;
    slot = 0;
    due_ns = 0;
    sent = 0;
    spell_sent = 0;
    send_errors = 0;
    late = 0;
    pushes = 0;
    cycles = 0;
    head_sent = false;
    chunks_sent = 0;
    knocks = 0;
    last_heard_ns = 0;
    answer = [];
    answer_src = [];
    answered_cycle = 0;
  }

  abbrev pub set_host : Wire → Bool → Wire
  set_host w host = record w { host = host }

  abbrev pub slot_ns : Wire → ℕ → ℕ
  slot_ns w slot = u64 (w.t0_ns + u64 (slot * second) / w.fps)

  -- Stepped until the transfer's header, `n` slots at most.
  abbrev pub to_header : ℕ → lib.Master → lib.Master
  to_header zero m = m
  to_header (suc n) m =
      let rest = to_header n (lib.next_master m) in
      if lib.cycle_pos m == lib.sub01_off m then m else rest

  unfoldable pub master_at_header : CString → ℕ → lib.Master
  master_at_header src fps = let m = lib.fresh_master src fps in to_header (lib.cycle_len m) m

  unfoldable pub cycle_slots : ℕ → ℕ
  cycle_slots fps = if fps == 0 then 0 else lib.cycle_len (master_at_header no_address fps)

  -- How many of the next `n` slots are not FILLER.
  abbrev pub count_control : ℕ → lib.Master → ℕ
  count_control zero m = 0
  count_control (suc n) m =
      let rest = count_control n (lib.next_master m) in
      if is_filler (lib.next_emit m) then rest else rest + 1

  unfoldable pub control_per_cycle : ℕ → ℕ
  control_per_cycle fps =
      if fps == 0
      then 0
      else let m = master_at_header no_address fps in count_control (lib.cycle_len m) m

  abbrev pub slots_of : Wire → ℕ
  slots_of w = if ltb 0 (lib.cycle_len w.master) then lib.cycle_len w.master else cycle_slots w.fps

  unfoldable pub period_ns : Wire → ℕ → ℕ
  period_ns w n =
      if w.fps == 0 || slots_of w == 0
      then period_max_ns
      else capped (doubled n (u64 (slots_of w * second) / w.fps))

  -- The first of the next `n` slots, from `slot` on, that is not FILLER, or the one behind them.
  abbrev pub due_slot : ℕ → ℕ → lib.Master → ℕ
  due_slot zero slot m = slot
  due_slot (suc n) slot m =
      let rest = due_slot n (slot + 1) (lib.next_master m) in
      if is_filler (lib.next_emit m) then rest else slot

  unfoldable pub knock_peek : Wire → Wire
  knock_peek w =
      if w.resting
      then record w { due_ns = w.next_ns }
      else (let ended = lib.cycle_len w.master - w.slot in
          record w {
            due_ns = slot_ns w (
                if ltb w.slot (lib.cycle_len w.master)
                then due_slot ended w.slot w.master
                else lib.cycle_len w.master);
          })

  unfoldable pub knock_open : Wire → ℕ → Wire
  knock_open w at = knock_peek (record w {
    master = master_at_header w.src w.fps;
    resting = false;
    t0_ns = at;
    slot = 0;
    head_sent = false;
    chunks_sent = 0;
    cycles = u64 (w.cycles + 1);
  })

  unfoldable pub knock_rest : Wire → Wire
  knock_rest w = knock_peek (record w {
    next_ns = u64 (w.t0_ns + period_ns w w.unanswered);
    unanswered = u32 (w.unanswered + 1);
    resting = true;
  })

  abbrev pub spell : Wire → ℕ → Wire
  spell w now =
      knock_open
        (record w {
          state = knocking;
          knocks = u32 (w.knocks + 1);
          cycles = 0;
          spell_sent = 0;
          answer = [];
        })
        now

  -- One poll; `pinned` is the hunt's.
  unfoldable pub step : Wire → Bool → ℕ → Bool → Wire × Act
  step w pinned now trunk_now =
      if trunk_now
      then (if is_trunk w.state
          then (w, nothing)
          else (record w { state = trunk; due_ns = 0 }, becomes_trunk))
      else if is_trunk w.state
      then (record w { state = listening; licence = lib.licence_init now; unanswered = 0 }, untrunk)
      else if pinned
      then (w, nothing)
      else if is_knocking w.state
      then (w, nothing)
      else (let w' = record w { licence = lib.licence_after w.licence now } in
          if lib.licence_drives w.licence now then (spell w' now, knock) else (w', nothing))

  -- A frame's arrival, before it is looked at: the backoff and the licence.
  abbrev pub heard_at : Wire → ℕ → Wire
  heard_at w now =
      let after_silence = w.last_heard_ns == 0 || leb lib.listen_ns (sub64 now w.last_heard_ns) in
      let w1 = record w { last_heard_ns = now; licence = lib.licence_heard w.licence now } in
      if after_silence
      then (if is_knocking w.state && w.resting
          then record w1 { unanswered = 0; next_ns = now; due_ns = now }
          else record w1 { unanswered = 0 })
      else w1

  abbrev pub sender : Wire → Option CString → CString
  sender w none = w.answer_src
  sender w (some frame) = if leb 12 (length frame) then take 6 (drop 6 frame) else w.answer_src

  abbrev pub answered_by : Wire → Option CString → Bool → Wire × Act
  answered_by w frame evidence =
      if is_knocking w.state && evidence
      then (
        record w {
          state = answered;
          due_ns = 0;
          answer = [];
          answered_cycle = w.cycles;
          answer_src = sender w frame;
        },
        hush,
      )
      else (w, nothing)

  abbrev pub keep : Wire → Option CString → Wire
  keep w none = w
  keep w (some frame) =
      if is_answered w.state
        && ltb 0 (length frame)
        && ltb (length w.answer) max_answers
        && lib.is_control frame
      then record w { answer = w.answer ++ take lib.frame_bytes frame ∷ [] }
      else w

  unfoldable pub heard : Wire → ℕ → Option CString → Bool → Wire × Act
  heard w now frame evidence =
      if is_trunk w.state
      then (w, nothing)
      else (let (w', act) = answered_by (heard_at w now) frame evidence in (keep w' frame, act))

  unfoldable pub answer_taken : Wire → Wire
  answer_taken w =
      if is_answered w.state
      then record w { answer = []; state = listening }
      else record w { answer = [] }

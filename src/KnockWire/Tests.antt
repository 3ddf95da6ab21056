-- ===== src/KnockWire/Tests.antt =====
-- A knock of a small master: four slots a cycle, with a transfer of one chunk in them
-- (src/reac_knock_wire.c).
use reac_pw.Prelude.{
  ℕ, suc, ◌*◌, ◌%◌, ◌≤◌, ◌≡◌, ◌↔◌, refl, inr, Bool, true, false, not, ◌&&◌, ◌||◌, Option, none,
  some, List, [], ◌∷◌, All, arith, ltb, ◌==◌, if◌then◌else◌,
}
use reac_pw.Prelude.Int.{pos}
use reac_pw.Prelude.Words.{second}
use reac_pw.Prelude.Bytes.{CString}
use reac_pw.KnockWire.Interface.{
  Libreac, Emit, filler, scene_head, scene_chunk, scene_tail, control,
}
use reac_pw.KnockWire.{
  Wire, knock, init, is_filler, is_knocking, spell, knock_open, knock_peek, master_at_header,
}
use reac_pw.KnockWire.Run.{run, loop, turn, run_slot}
use reac_pw.KnockWire.Fuel.{IsSteady, run_returns}
use reac_pw.KnockWire.Silence.{IsControl, run-keeps}
use reac_pw.KnockWire.Spell.{polls, handle, ends_knock, starts_knock, knocking_iff}
use reac_pw.KnockWire.Ladder.{KnockLadder}
use reac_pw.KnockWire.Edges.{Shown, acts, acts_budget}
use reac_pw.Wake
use reac_pw.Wake.{max_bounces}
use reac_pw.Wake.Ladder.{count_bounces, count_exhausted}

abbrev emits : ℕ → Emit
emits n =
    if n % 4 == 0
    then scene_head
    else if n % 4 == 1
    then scene_chunk
    else if n % 4 == 2
    then scene_tail
    else filler

abbrev frame_of : Emit → Option CString
frame_of filler = some (0 ∷ [])
frame_of scene_head = some (1 ∷ [])
frame_of scene_chunk = some (1 ∷ [])
frame_of scene_tail = some (1 ∷ [])
frame_of control = some (1 ∷ [])

abbrev small : Libreac
small = record {
  Master = ℕ;
  fresh_master = λ src fps. 0;
  cycle_len = λ m. 4;
  cycle_pos = λ m. m % 4;
  sub01_off = λ m. 0;
  next_emit = emits;
  next_counter = λ m. m;
  next_idx = λ m. 0;
  next_master = suc;
  stamped_frame = λ m src counter emit idx. frame_of emit;
  scene_chunks = 1;
  frame_bytes = 1500;
  is_control = λ frame. false;
  Licence = ℕ;
  licence_init = λ now. now;
  licence_heard = λ l now. now;
  licence_after = λ l now. l;
  licence_drives = λ l now. ltb 500 (now);
  listen_ns = 500;
}

abbrev mac : CString
mac = 2 ∷ 0 ∷ 0 ∷ 0 ∷ 0 ∷ 1 ∷ []

abbrev quiet : Wire small
quiet = init small 0 mac 4 1

abbrev knocked : Wire small
knocked = spell small quiet second

small-IsSteady : IsSteady small mac 4 4
small-IsSteady = record {
  steady = λ m. refl;
  fresh = refl;
  some_slot = omega arith;
  few_slots = omega arith;
  some_rate = omega arith;
  most_rate = omega arith;
}

abbrev logged : List CString → CString → List CString × Bool
logged log frame = (frame ∷ log, true)

run_returns_example :
    (enough : ℕ) × (r : Wire small × ℕ × List CString) × ((fuel : ℕ)
      → enough ≤ fuel
      → run small logged fuel knocked (3 * second) [] ≡ some r)
unfolding init knock_open knock_peek
run_returns_example =
    run_returns small mac 4 4 small-IsSteady logged (3 * second) (omega arith) knocked [] refl refl
      (inr (refl, refl, omega arith, omega arith))

knocking_iff_example :
    (is_knocking (handle small quiet (polls false second false)).0.state ≡ (
      is_knocking quiet.state && not (ends_knock small (polls false second false))
      || starts_knock small quiet (polls false second false)))
    × (((handle small quiet (polls false second false)).1 ≡ knock)
        ↔ (starts_knock small quiet (polls false second false) ≡ true))
knocking_iff_example = knocking_iff small quiet (polls false second false)

abbrev OnlyControl : List CString → Type 0
OnlyControl = All (λ frame. frame ≡ 1 ∷ [])

frame_of_control :
    (e : Emit) (frame : CString) → is_filler e ≡ false → frame_of e ≡ some frame → frame ≡ 1 ∷ []
frame_of_control filler frame c s = absurd cc
frame_of_control scene_head frame c s = cc
frame_of_control scene_chunk frame c s = cc
frame_of_control scene_tail frame c s = cc
frame_of_control control frame c s = cc

logged_control :
    (log : List CString) (frame : CString)
    → IsControl small mac frame
    → OnlyControl log
    → OnlyControl (logged log frame).0
logged_control log frame i a = (frame_of_control i.emit frame i.control i.stamped, a)

abbrev wire_of : Option (Wire small × ℕ × List CString) → Wire small
wire_of none = quiet
wire_of (some (w, n, log)) = w

-- The first slot's frame is the transfer's first, and it leaves.
first_frame :
    run small logged 20 knocked second []
    ≡ some (wire_of (run small logged 20 knocked second []), 1, (1 ∷ []) ∷ [])
unfolding run loop turn run_slot init knock_open knock_peek master_at_header
first_frame = refl

run-keeps_example : OnlyControl ((1 ∷ []) ∷ [])
unfolding init knock_open knock_peek
run-keeps_example =
    run-keeps small logged OnlyControl mac logged_control 20 knocked
      (wire_of (run small logged 20 knocked second [])) second 1 [] ((1 ∷ []) ∷ []) refl tt
      first_frame

abbrev turn_shown : Shown small
turn_shown = record {
  wire = knocked;
  now = second;
  rx_frames = 0;
  carrier = pos 1;
  siblings_served = false;
  host_nic = false;
}

abbrev closed : KnockLadder
closed = record {
  wake = record (Wake.init 0) { spent_said = false };
  pushes0 = 0;
  pushes_last = 0;
  frames0 = 0;
  knocks_seen = 0;
}

acts_budget_example :
    (count_bounces (acts small closed (turn_shown ∷ [])) ≤ max_bounces)
    × (count_exhausted (acts small closed (turn_shown ∷ [])) ≤ 1)
    × (count_exhausted (acts small closed (turn_shown ∷ [])) ≡ 1
        → count_bounces (acts small closed (turn_shown ∷ [])) ≡ max_bounces)
unfolding Wake.init
acts_budget_example = acts_budget small closed (turn_shown ∷ []) refl (omega arith, tt)

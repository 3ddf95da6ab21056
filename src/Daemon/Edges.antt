-- ===== src/Daemon/Edges.antt =====
-- The wake ladders of the wires that are knocked on: `knock_ladder_of` and `hearing_knock_wake` in
-- src/main.c. A table keeps a ladder for each wire's name, since the edge that a ladder makes closes the
-- wire's sniffer. Whether the kernel takes a link down or up when asked is an input, by the link's name;
-- what a poll reads of a sniffer is one too. Lines for the journal are left out.
pub mod Overdue
use reac_pw.Prelude.{
  ℕ, suc, ◌+◌, ◌-◌, ◌*◌, ◌%◌, Bool, true, false, not, ◌&&◌, ◌||◌, Option, none, some, List, [], ◌∷◌,
  ◌++◌, ltb, leb, ◌==◌, if◌then◌else◌, length, take,
}
use reac_pw.Prelude.Int.{ℤ}
use reac_pw.Prelude.Words.{u64}
use reac_pw.Prelude.Bytes.{CString, str_eq}
use reac_pw.DeclaredVlan.{ifnamsiz}
use reac_pw.Wake
use reac_pw.KnockWire.Interface.{Libreac}
use reac_pw.KnockWire.{Wire, WireState, listening, knocking, answered, trunk, set_host}
use reac_pw.KnockWire.Ladder.{KnockLadder, ladder_step}

-- REAC_WAKE_DOWN_MS of src/reac_wake.h, in nanoseconds.
abbrev pub down_ns : ℕ
down_ns = 1200 * 1_000_000

abbrev pub blank_ladder : KnockLadder
blank_ladder = record {
  wake = record {
    opened_ns = 0;
    last_bounce_ns = 0;
    bounces = 0;
    spent_said = false;
    refusal = Wake.ok;
    said = Wake.ok;
  };
  pushes0 = 0;
  pushes_last = 0;
  frames0 = 0;
  knocks_seen = 0;
}

-- `struct knock_ladder`.
pub record Entry : Type 0 where
  pub name : CString
  pub kl : KnockLadder
  pub up_at_ns : ℕ
  pub exhausted_said : ℕ

abbrev pub fresh_entry : CString → Entry
fresh_entry name = record {
  name = take (ifnamsiz - 1) name;
  kl = blank_ladder;
  up_at_ns = 0;
  exhausted_said = 0;
}

abbrev pub find : List Entry → CString → Option Entry
find [] name = none
find (e ∷ table) name = let more = find table name in if str_eq e.name name then some e else more

-- The ladders in use and the one found, which is made where there is room.
abbrev pub found_or : ℕ → List Entry → CString → Option Entry → List Entry × Option Entry
found_or max table name (some e) = (table, some e)
found_or max table name none =
    if leb max (length table)
    then (table, none)
    else (table ++ fresh_entry name ∷ [], some (fresh_entry name))

unfoldable pub knock_ladder_of : ℕ → List Entry → CString → List Entry × Option Entry
knock_ladder_of max table name = found_or max table name (find table name)

-- The first entry under a name is replaced.
abbrev pub store : List Entry → CString → Entry → List Entry
store [] name e = []
store (t ∷ table) name e =
    let more = store table name e in if str_eq t.name name then e ∷ table else t ∷ more

-- An edge in flight whose time has come is finished: the link is asked up, and its time is forgotten
-- whatever the kernel answers. What is asked stands with the answer.
abbrev pub is_due : ℕ → Entry → Bool
is_due now e = not (e.up_at_ns == 0) && leb e.up_at_ns now

unfoldable pub finish : (CString → Bool) → ℕ → List Entry → List Entry × List (CString × Bool)
finish link_up now [] = ([], [])
finish link_up now (e ∷ table) =
    let (table', ups) = finish link_up now table in
    if is_due now e
    then (record e { up_at_ns = 0 } ∷ table', (e.name, link_up e.name) ∷ ups)
    else (e ∷ table', ups)

module _ (lib : Libreac) where
  -- What a poll reads of a sniffer.
  pub record Sniffed : Type 0 where
    pub name : CString
    pub knock_tx_open : Bool
    pub kw : Wire lib
    pub frames : ℕ
    pub carrier : ℤ
    pub siblings_served : Bool
    pub hosts : Bool

  abbrev pub is_knocking : WireState → Bool
  is_knocking listening = false
  is_knocking knocking = true
  is_knocking answered = false
  is_knocking trunk = false

  module _ (max : ℕ) (link_down link_up : CString → Bool) where
    abbrev pub acted : ℕ → Entry → CString → KnockLadder → Wake.Act → Entry
    acted now e name kl Wake.none = record e {
      kl = record kl { wake = (Wake.refusal_to_say kl.wake).0 };
    }
    acted now e name kl Wake.exhausted = record e { kl = kl; exhausted_said = suc e.exhausted_said }
    acted now e name kl Wake.bounce =
        if link_down name
        then record e { kl = kl; up_at_ns = u64 (now + down_ns) }
        else record e { kl = kl }

    abbrev pub stepped : ℕ → Sniffed → Entry → Entry
    stepped now sn e =
        let (kl, act, o) =
          ladder_step lib e.kl (set_host lib sn.kw sn.hosts) now sn.frames sn.carrier
            sn.siblings_served sn.hosts in
        acted now e sn.name kl act

    -- A link that is down is left to come back.
    abbrev pub turned : ℕ → Sniffed → List Entry × Option Entry → List Entry
    turned now sn (table, none) = table
    turned now sn (table, some e) =
        if not (e.up_at_ns == 0) then table else store table sn.name (stepped now sn e)

    unfoldable pub turn : ℕ → Sniffed → List Entry → List Entry
    turn now sn table =
        if not sn.knock_tx_open || not (is_knocking sn.kw.state)
        then table
        else turned now sn (knock_ladder_of max table sn.name)

    unfoldable pub turns : ℕ → List Sniffed → List Entry → List Entry
    turns now [] table = table
    turns now (sn ∷ sniff) table = turns now sniff (turn now sn table)

    -- One poll: the table, the polls so far, and the links asked up with the kernel's answers; ladders
    -- step every fifth poll.
    unfoldable pub knock_wake :
        ℕ → ℕ → List Sniffed → List Entry → List Entry × ℕ × List (CString × Bool)
    knock_wake now polls sniff table =
        let (table', ups) = finish link_up now table in
        if not (suc polls % 5 == 0)
        then (table', suc polls, ups)
        else (turns now sniff table', suc polls, ups)

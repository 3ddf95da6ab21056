-- ===== src/Daemon/Follow.antt =====
-- The polls that send a segment back to its wire: `hearing_reevaluate`, for one that follows nobody, and
-- `hearing_rehear_empty_masters`, for a master that streams at nobody, in src/main.c. Each is one turn of
-- a listener: what it holds, what the poll reads of its engine, and whether it is re-heard, that is
-- dropped and listened to afresh. The ticks of quiet are libreac's.
pub mod Silent
use reac_pw.Prelude.{
  ℕ, suc, ◌*◌, Bool, true, false, not, ◌&&◌, ◌||◌, Option, none, some, List, [], ◌∷◌, ltb, ◌==◌,
  if◌then◌else◌,
}
use reac_pw.Prelude.Bytes.{CString}
use reac_pw.Settings.Rate
use reac_pw.EmptyMaster
use reac_pw.EmptyMaster.{EmptyMaster}
use reac_pw.Daemon.{
  Intent, intent_auto, intent_master, intent_slave, intent_tap, intent_box, is_master,
}

-- The part of `struct listener` that the two polls read and write; `live` is REAC_RX_LIVE.
pub record Listener : Type 0 where
  pub opened : Bool
  pub door_only : Bool
  pub tap : Bool
  pub role : Rate.Role
  pub role_intent : Intent
  pub role_pinned : Bool
  pub source : Option CString
  pub live : Bool
  pub follows_nobody_ticks : ℕ
  pub empty : EmptyMaster.EmptyMaster
  pub empty_open : Bool

-- The slave's end was asked for, so an empty wire is no reason to leave it.
abbrev pub asked_slave : Intent → Bool
asked_slave intent_auto = false
asked_slave intent_master = false
asked_slave intent_slave = true
asked_slave intent_tap = false
asked_slave intent_box = true

abbrev pub is_named : Option CString → Bool
is_named none = false
is_named (some []) = false
is_named (some (c ∷ name)) = true

-- A segment that follows, of its own accord.
abbrev pub follows : Listener → Bool
follows l =
    l.opened
    && not l.door_only
    && (l.tap || not (is_master l.role))
    && not (asked_slave l.role_intent)

-- A listener that is dropped is closed.
abbrev pub dropped : Listener → Listener
dropped l = record l { opened = false }

module _ (quiet_ticks : ℕ) where
  abbrev pub follows_nobody_ticks_max : ℕ
  follows_nobody_ticks_max = 2 * quiet_ticks

  abbrev pub unheard : Listener → Listener × Bool
  unheard l =
      let l' = record l { follows_nobody_ticks = suc l.follows_nobody_ticks } in
      if ltb l'.follows_nobody_ticks follows_nobody_ticks_max
      then (l', false)
      else if not (is_named l.source)
      then (l', false)
      else (dropped l', true)

  unfoldable pub reevaluate : Listener → Bool → Listener × Bool
  reevaluate l heard =
      if not (follows l)
      then (l, false)
      else if heard
      then (record l { follows_nobody_ticks = 0 }, false)
      else unheard l

-- What the poll reads of a master's engine: the frames of a box, and whether it is past probing. There
-- is nothing to read before its pacer runs.
pub record Engine : Type 0 where
  pub rx_box_frames : ℕ
  pub past_probing : Bool

-- A master of its own accord, on a wire that the daemon hears.
abbrev pub drives_alone : Listener → Bool
drives_alone l =
    l.opened
    && not l.door_only
    && not l.tap
    && is_master l.role
    && not l.role_pinned
    && is_named l.source
    && l.live

abbrev pub stepped : Listener → EmptyMaster.EmptyMaster × Bool → Bool → Listener × Bool
stepped l (e, false) served = (record l { empty = e }, false)
stepped l (e, true) false = (record l { empty = e }, false)
stepped l (e, true) true = (dropped (record l { empty = e; empty_open = false }), true)

abbrev pub with_engine : Listener → ℕ → Option Engine → Bool → Listener × Bool
with_engine l now none served = (l, false)
with_engine l now (some o) served =
    if not l.empty_open
    then (record l { empty = EmptyMaster.init now o.rx_box_frames; empty_open = true }, false)
    else stepped l (EmptyMaster.step l.empty now o.rx_box_frames o.past_probing) served

-- `served` is whether the hearing serves this name, which a --live segment's is not.
unfoldable pub rehear_empty : Listener → ℕ → Option Engine → Bool → Listener × Bool
rehear_empty l now engine served =
    if not (drives_alone l)
    then (record l { empty_open = false }, false)
    else with_engine l now engine served

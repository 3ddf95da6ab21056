-- ===== src/Watch.antt =====
-- src/reac_watch.c and src/reac_watch.h: what a served segment does on a fresh verdict. The verdicts
-- are libreac's enumeration (`enum reac_hunt_verdict`), with the four values that the source names;
-- the withdrawal window `REAC_DISCO_STALE_NS` is libreac's, and a parameter.
pub mod Roles
mod Tests
use reac_pw.Prelude.{ℕ, Bool, true, false, not, ◌&&◌, ◌||◌, ltb, leb, if◌then◌else◌}
use reac_pw.Prelude.Words.{sub64}
use reac_pw.Prelude.Bytes.{CString, codes}

pub data Verdict : Type 0 where
  hunting master slave refused : Verdict

pub data Act : Type 0 where
  stand yield retake unrefuse : Act

unfoldable pub act_name : Act → CString
act_name yield = codes "yield"
act_name retake = codes "retake"
act_name unrefuse = codes "unrefuse"
act_name stand = codes "stand"

unfoldable pub keep : Verdict → Bool → Bool
keep refused pinned = true
keep hunting pinned = true
keep master pinned = not pinned
keep slave pinned = false

pub record WatchIn : Type 0 where
  pub door : Bool
  pub we_master : Bool
  pub pinned : Bool
  pub vacant : Bool
  pub verdict : Verdict
  pub now_ns : ℕ
  pub opened_ns : ℕ

abbrev pub is_hunting : Verdict → Bool
is_hunting hunting = true
is_hunting _ = false

abbrev pub is_refused : Verdict → Bool
is_refused refused = true
is_refused _ = false

-- The last rows of the table: a running segment that nobody pinned.
abbrev pub decide_running : Verdict → Bool → Act
decide_running slave we_master = if we_master then yield else stand
decide_running master we_master = if we_master then stand else retake
decide_running _ we_master = stand

module _ (stale_ns : ℕ) where
  unfoldable pub decide : WatchIn → Act
  decide x =
      if x.door && x.vacant
      then (if is_hunting x.verdict then stand else unrefuse)
      else if x.door
      then (if is_refused x.verdict
          then stand
          else if leb x.now_ns x.opened_ns || ltb (sub64 x.now_ns x.opened_ns) stale_ns
          then stand
          else unrefuse)
      else if x.pinned
      then stand
      else decide_running x.verdict x.we_master

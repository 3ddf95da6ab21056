-- ===== src/Daemon.antt =====
-- src/main.c: the decisions of the daemon's poll over its segments, with libreac's hunt, its interface
-- scan and its engines around them. What a wire was heard to be is the hunt's verdict and arbitration;
-- the role that goes with a hunt or an operator's intent is libreac's, and a parameter.
pub mod Serve
pub mod Licence
pub mod Trunk
pub mod Follow
pub mod Edges
pub mod Budget
pub mod Segments
mod Tests
use reac_pw.Prelude.{ℕ, Bool, true, false, Option, List}
use reac_pw.Prelude.Bytes.{CString}
use reac_pw.Watch.{Verdict}
use reac_pw.Settings.Rate

-- What the operator asked a segment to be (libreac's `enum reac_role_intent`).
pub data Intent : Type 0 where
  intent_auto intent_master intent_slave intent_tap intent_box : Intent

-- Who masters the wire (libreac's `enum reac_rival_kind`).
pub data Rival : Type 0 where
  rival_none rival_box rival_desk rival_unknown : Rival

-- What the daemon reads of a hunt: its verdict and its arbitration. `foreign` is
-- REAC_SEGMENT_FOREIGN; the rival's address is there where it has one.
pub record Hunt : Type 0 where
  pub verdict : Verdict
  pub foreign : Bool
  pub rival : Rival
  pub rival_channels : ℕ
  pub mac : Option (List ℕ)

-- libreac's part: the role for an intent, the role that a hunt's verdict takes, and whether the hunt
-- heard anything at all.
pub record Libreac : Type 0 where
  pub role_from_intent : Intent → Rate.Role
  pub hunt_role : Hunt → Rate.Role
  pub heard_anything : Hunt → Bool

abbrev pub is_auto : Intent → Bool
is_auto intent_auto = true
is_auto intent_master = false
is_auto intent_slave = false
is_auto intent_tap = false
is_auto intent_box = false

abbrev pub is_tap : Intent → Bool
is_tap intent_auto = false
is_tap intent_master = false
is_tap intent_slave = false
is_tap intent_tap = true
is_tap intent_box = false

abbrev pub is_box : Intent → Bool
is_box intent_auto = false
is_box intent_master = false
is_box intent_slave = false
is_box intent_tap = false
is_box intent_box = true

abbrev pub is_desk : Rival → Bool
is_desk rival_none = false
is_desk rival_box = false
is_desk rival_desk = true
is_desk rival_unknown = false

abbrev pub is_rival_box : Rival → Bool
is_rival_box rival_none = false
is_rival_box rival_box = true
is_rival_box rival_desk = false
is_rival_box rival_unknown = false

abbrev pub is_master : Rate.Role → Bool
is_master Rate.master = true
is_master Rate.slave = false

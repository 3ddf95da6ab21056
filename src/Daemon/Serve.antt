-- ===== src/Daemon/Serve.antt =====
-- How a heard segment is configured: `listener_cfg_from_conf`, where it is about the role, and
-- `hearing_serve` in src/main.c, up to the opening of its engine.
use reac_pw.Prelude.{ℕ, Bool, true, false, not, ◌&&◌, Option, none, some, List, ltb, if◌then◌else◌}
use reac_pw.Watch.{Verdict, hunting, master, slave, refused}
use reac_pw.Settings.Rate
use reac_pw.Box.{Model}
use reac_pw.Daemon.{
  Intent, intent_auto, intent_master, intent_slave, intent_tap, intent_box, Hunt, Libreac, is_auto,
  is_tap, is_box, is_desk, is_rival_box, is_master,
}

-- The role's part of `struct listener_cfg`.
pub record Cfg : Type 0 where
  pub role : Rate.Role
  pub role_intent : Intent
  pub role_pinned : Bool
  pub tap : Bool
  pub box_model : Option Model
  pub wire_channels : ℕ
  pub join_box_master : Bool
  pub door_only : Bool
  pub door_vacant : Bool
  pub wire_heard : Bool
  pub rival_mac : Option (List ℕ)
  pub bind_mac : Option (List ℕ)

unfoldable pub cfg_defaults : ℕ → Cfg
cfg_defaults max_channels = record {
  role = Rate.master;
  role_intent = intent_auto;
  role_pinned = false;
  tap = false;
  box_model = none;
  wire_channels = max_channels;
  join_box_master = false;
  door_only = false;
  door_vacant = false;
  wire_heard = false;
  rival_mac = none;
  bind_mac = none;
}

-- A desk on the wire is deferred to, unless the operator asked for the slave's end or for a tap.
abbrev pub defers_for : Intent → Hunt → Bool
defers_for intent_slave h = false
defers_for intent_tap h = false
defers_for intent_box h = false
defers_for intent_auto h = h.foreign && is_desk h.rival
defers_for intent_master h = h.foreign && is_desk h.rival

unfoldable pub defers_as_tap : Intent → Option Hunt → Bool
defers_as_tap intent none = false
defers_as_tap intent (some h) = defers_for intent h

abbrev pub deferred : Option Hunt → Cfg → Cfg
deferred hunt c =
    if not c.tap && defers_as_tap c.role_intent hunt then record c { tap = true } else c

abbrev pub vacant : Cfg → Cfg
vacant c = record c { door_only = true; door_vacant = true; wire_channels = 0 }

abbrev pub with_rival : Hunt → Cfg → Cfg
with_rival h c = record c { wire_channels = h.rival_channels; rival_mac = h.mac }

-- A box that masters the wire is joined, whatever a pin says.
abbrev pub joined : Hunt → Cfg → Cfg
joined h c =
    if is_rival_box h.rival && ltb 0 h.rival_channels
    then record (with_rival h c) { join_box_master = true; role = Rate.slave }
    else c

abbrev pub by_verdict : Verdict → Hunt → Cfg → Cfg
by_verdict hunting h c = vacant c
by_verdict refused h c = record (with_rival h c) { door_only = true }
by_verdict slave h c = joined h c
by_verdict master h c = c

abbrev pub is_slave_verdict : Verdict → Bool
is_slave_verdict hunting = false
is_slave_verdict refused = false
is_slave_verdict slave = true
is_slave_verdict master = false

abbrev pub bound : Hunt → Cfg → Cfg
bound h c =
    if not c.tap && not c.door_only && is_slave_verdict h.verdict && h.foreign && is_desk h.rival
    then record c { bind_mac = h.mac }
    else c

module _ (lib : Libreac) where
  abbrev pub with_file : Option Intent → Cfg → Cfg
  with_file none c = c
  with_file (some i) c = record c {
    role_intent = i;
    role = lib.role_from_intent i;
    role_pinned = not (is_auto i);
    tap = is_tap i;
  }

  -- A box without a usable model stays on the hunt.
  abbrev pub with_model : Option Model → Cfg → Cfg
  with_model none c = record c {
    role_intent = intent_auto;
    role_pinned = false;
    role = Rate.master;
    box_model = none;
  }
  with_model (some m) c = record c { box_model = some m }

  -- The role that the file gives the segment, with the catalogue's entry for its model.
  unfoldable pub cfg_from_conf : ℕ → Option Intent → Option Model → Cfg
  cfg_from_conf max_channels file model =
      let c = with_file file (cfg_defaults max_channels) in
      if is_box c.role_intent then with_model model c else c

  -- The wire decides wherever the file did not.
  abbrev pub unpinned : Hunt → Cfg → Cfg
  unpinned h c = if c.role_pinned then c else record c { role = lib.hunt_role h }

  abbrev pub by_hunt : Hunt → Cfg → Cfg
  by_hunt h c =
      let c' = bound h (if c.tap then c else by_verdict h.verdict h c) in
      record (unpinned h c') { wire_heard = lib.heard_anything h }

  abbrev pub on_hunt : Option Hunt → Cfg → Cfg
  on_hunt none c = c
  on_hunt (some h) c = by_hunt h c

  -- The configuration with which the segment's engine is opened.
  unfoldable pub serve_cfg : Cfg → Option Hunt → Cfg
  serve_cfg c hunt = on_hunt hunt (deferred hunt c)

-- Whether the box's answer to a knock goes to this segment's engine.
unfoldable pub takes_answer : ℕ → Cfg → Bool
takes_answer n_carry c = ltb 0 n_carry && is_master c.role && not c.tap && not c.door_only

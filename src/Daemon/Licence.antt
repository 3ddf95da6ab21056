-- ===== src/Daemon/Licence.antt =====
-- On which wires the daemon opens a master, a tap or a bound slave (`hearing_serve` in src/main.c).
use reac_pw.Prelude.{ℕ, ◌≡◌, Bool, true, false, not, ◌&&◌, Option, none, some, arith, ltb}
use reac_pw.Watch.{Verdict, hunting, master, slave, refused}
use reac_pw.Settings.Rate
use reac_pw.Box.{Model}
use reac_pw.Daemon.{
  Intent, intent_auto, intent_master, intent_slave, intent_tap, intent_box, Hunt, Libreac, is_desk,
  is_rival_box, is_master,
}
use reac_pw.Daemon.Serve.{
  Cfg, cfg_defaults, defers_as_tap, is_slave_verdict, cfg_from_conf, serve_cfg,
}

-- The engine that the configuration opens is the master's.
abbrev pub drives : Cfg → Bool
drives c = not c.tap && not c.door_only && is_master c.role

-- What the file asks for, once a box without a model is passed over.
abbrev pub asks : Option Intent → Option Model → Intent
asks none model = intent_auto
asks (some intent_auto) model = intent_auto
asks (some intent_master) model = intent_master
asks (some intent_slave) model = intent_slave
asks (some intent_tap) model = intent_tap
asks (some intent_box) none = intent_auto
asks (some intent_box) (some m) = intent_box

abbrev pub decided : Verdict → Bool
decided hunting = false
decided refused = false
decided slave = true
decided master = true

abbrev pub foreign_desk : Hunt → Bool
foreign_desk h = h.foreign && is_desk h.rival

-- A box that masters the wire at a width of its own.
abbrev pub box_to_join : Hunt → Bool
box_to_join h = is_slave_verdict h.verdict && is_rival_box h.rival && ltb 0 h.rival_channels

-- A wire that is decided, and that neither a desk nor a box to join masters.
abbrev pub is_open : Hunt → Bool
is_open h = decided h.verdict && not (foreign_desk h) && not (box_to_join h)

abbrev pub may_drive : Libreac → Intent → Hunt → Bool
may_drive lib intent_auto h = is_open h && is_master (lib.hunt_role h)
may_drive lib intent_master h = is_open h
may_drive lib intent_slave h = false
may_drive lib intent_tap h = false
may_drive lib intent_box h = false

abbrev pub taps : Intent → Hunt → Bool
taps intent_auto h = foreign_desk h
taps intent_master h = foreign_desk h
taps intent_slave h = false
taps intent_tap h = true
taps intent_box h = false

-- libreac's roles for the intents that name an end of the wire, and for a hunt that found a master.
pub record IsEnds (lib : Libreac) : Type 0 where
  pub ends_master : lib.role_from_intent intent_master ≡ Rate.master
  pub ends_slave : lib.role_from_intent intent_slave ≡ Rate.slave
  pub ends_box : lib.role_from_intent intent_box ≡ Rate.slave
  pub ends_hunt : (h : Hunt) → is_slave_verdict h.verdict ≡ true → lib.hunt_role h ≡ Rate.slave

-- Where libreac's roles are the ends that an intent names, and the slave's for a wire that another
-- masters: a segment is mastered exactly where its
-- wire is decided, no desk and no box at its own width masters it, and the file asks for the master's
-- end or leaves the role to a hunt that found the wire ours. It is tapped exactly where the file asks
-- for a tap, or where a desk masters it and the file did not ask for the slave's end.
pub serve_cfg-drives :
    (lib : Libreac) (max_channels : ℕ) (file : Option Intent) (model : Option Model) (h : Hunt)
    → IsEnds lib
    → let c = serve_cfg lib (cfg_from_conf lib max_channels file model) (some h) in
      (drives c ≡ may_drive lib (asks file model) h) × (c.tap ≡ taps (asks file model) h)
unfolding serve_cfg cfg_from_conf cfg_defaults defers_as_tap
serve_cfg-drives lib n none model h e =
    ground (arith, e.ends_master, e.ends_slave, e.ends_box, e.ends_hunt h)
serve_cfg-drives lib n (some intent_auto) model h e =
    ground (arith, e.ends_master, e.ends_slave, e.ends_box, e.ends_hunt h)
serve_cfg-drives lib n (some intent_master) model h e =
    ground (arith, e.ends_master, e.ends_slave, e.ends_box, e.ends_hunt h)
serve_cfg-drives lib n (some intent_slave) model h e =
    ground (arith, e.ends_master, e.ends_slave, e.ends_box, e.ends_hunt h)
serve_cfg-drives lib n (some intent_tap) model h e =
    ground (arith, e.ends_master, e.ends_slave, e.ends_box, e.ends_hunt h)
serve_cfg-drives lib n (some intent_box) none h e =
    ground (arith, e.ends_master, e.ends_slave, e.ends_box, e.ends_hunt h)
serve_cfg-drives lib n (some intent_box) (some m) h e =
    ground (arith, e.ends_master, e.ends_slave, e.ends_box, e.ends_hunt h)

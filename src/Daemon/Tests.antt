-- ===== src/Daemon/Tests.antt =====
-- A wire that a desk masters, a re-patched trunk, a follower that is left alone, a link that a ladder
-- took down, and a port that an empty master holds (src/main.c).
use reac_pw.Prelude.{
  ℕ, suc, ◌+◌, ◌*◌, ◌≤◌, ◌<◌, ◌≡◌, refl, ◌↔◌, ◌⊎◌, Bool, true, false, none, some, List, [], ◌∷◌,
  arith, ltb,
}
use reac_pw.Prelude.Int.{pos}
use reac_pw.Prelude.Words.{second}
use reac_pw.Prelude.Bytes.{CString, codes}
use reac_pw.Watch.{slave}
use reac_pw.Settings.Rate
use reac_pw.KnockWire
use reac_pw.KnockWire.{Wire, knocking}
use reac_pw.KnockWire.Interface
use reac_pw.KnockWire.Interface.{Emit, control}
use reac_pw.Daemon.{
  Intent, intent_auto, intent_master, intent_slave, intent_tap, intent_box, rival_desk, Hunt,
  Libreac,
}
use reac_pw.Daemon.Serve.{cfg_from_conf, serve_cfg}
use reac_pw.Daemon.Licence.{drives, may_drive, asks, taps, IsEnds, serve_cfg-drives}
use reac_pw.Daemon.Trunk.{tagged, Frame, Tap, trunk_now}
use reac_pw.Daemon.Trunk.Fresh.{frames, last_tag, since_ns, trunk_now-fresh}
use reac_pw.Daemon.Follow.{Listener, follows_nobody_ticks_max}
use reac_pw.Daemon.Follow.Silent.{polls, has_run, polls-has_run}
use reac_pw.Daemon.Edges.{Entry, fresh_entry, Sniffed, knock_wake}
use reac_pw.Daemon.Budget.{Slot, Hearing}

abbrev desk : Hunt
desk = record {
  verdict = slave;
  foreign = true;
  rival = rival_desk;
  rival_channels = 40;
  mac = some (2 ∷ 0 ∷ 0 ∷ 0 ∷ 0 ∷ 9 ∷ []);
}

abbrev end_of : Intent → Rate.Role
end_of intent_auto = Rate.master
end_of intent_master = Rate.master
end_of intent_slave = Rate.slave
end_of intent_tap = Rate.master
end_of intent_box = Rate.slave

abbrev ends : Libreac
ends = record { role_from_intent = end_of; hunt_role = λ h. Rate.slave; heard_anything = λ h. true }

ends-IsEnds : IsEnds ends
ends-IsEnds = record {
  ends_master = refl;
  ends_slave = refl;
  ends_box = refl;
  ends_hunt = λ h s. refl;
}

serve_cfg-drives_example :
    (drives (serve_cfg ends (cfg_from_conf ends 40 (some intent_master) none) (some desk))
      ≡ may_drive ends (asks (some intent_master) none) desk)
    × ((serve_cfg ends (cfg_from_conf ends 40 (some intent_master) none) (some desk)).tap
        ≡ taps (asks (some intent_master) none) desk)
serve_cfg-drives_example = serve_cfg-drives ends 40 (some intent_master) none desk ends-IsEnds

abbrev usb : Tap
usb = record {
  ifindex = 3;
  linkup_ns = second;
  last_tagged_ns = 0;
  reac_vids = [];
  said_stale = false;
  said_foreign = false;
}

-- A tag of another interface, and then one of the parent's own.
abbrev tags : List (ℕ × Frame)
tags =
    (2 * second, record { ifindex = 7; outgoing = false; kind = tagged; vid = 11 })
    ∷ (3 * second, record { ifindex = 3; outgoing = false; kind = tagged; vid = 12 })
    ∷ []

trunk_now-fresh_example :
    (trunk_now (3 * second) true (some (frames 8 usb tags)) (5 * second) ≡ true) ↔ (
      (true ≡ true)
      × ((5 * second ≤ since_ns usb.linkup_ns (last_tag 3 usb.last_tagged_ns tags))
          ⊎ (5 * second
              < since_ns usb.linkup_ns (last_tag 3 usb.last_tagged_ns tags) + 3 * second)))
trunk_now-fresh_example = trunk_now-fresh 8 (3 * second) true usb tags (5 * second) (omega arith)

abbrev follower : Listener
follower = record {
  opened = true;
  door_only = false;
  tap = false;
  role = Rate.slave;
  role_intent = intent_auto;
  role_pinned = false;
  source = some (codes "eth0");
  live = true;
  follows_nobody_ticks = 0;
  empty = record { rx_last = 0; moved_ns = 0; was_past = false };
  empty_open = false;
}

abbrev heard_once : List Bool
heard_once = false ∷ true ∷ false ∷ false ∷ []

polls-has_run_example :
    (polls 1 follower heard_once).1 ≡ has_run (follows_nobody_ticks_max 1) heard_once
polls-has_run_example = polls-has_run 1 heard_once follower (omega arith) refl refl refl

abbrev hushed : Interface.Libreac
hushed = record {
  Master = ℕ;
  fresh_master = λ src fps. 0;
  cycle_len = λ m. 1;
  cycle_pos = λ m. 0;
  sub01_off = λ m. 0;
  next_emit = λ m. control;
  next_counter = λ m. m;
  next_idx = λ m. 0;
  next_master = suc;
  stamped_frame = λ m src counter emit idx. none;
  scene_chunks = 1;
  frame_bytes = 1500;
  is_control = λ frame. false;
  Licence = ℕ;
  licence_init = λ now. now;
  licence_heard = λ l now. now;
  licence_after = λ l now. l;
  licence_drives = λ l now. ltb 500 now;
  listen_ns = 500;
}

abbrev knocked : Sniffed hushed
knocked = record {
  name = codes "eth1";
  knock_tx_open = true;
  kw = record (KnockWire.init hushed 0 [] 4 1) { state = knocking };
  frames = 0;
  carrier = pos 1;
  siblings_served = false;
  hosts = false;
}

-- A link that is due to come back.
abbrev down : List Entry
down = record (fresh_entry (codes "eth0")) { up_at_ns = second } ∷ []

abbrev polled : List Entry × ℕ × List (CString × Bool)
polled = knock_wake hushed 8 (λ name. true) (λ name. false) (2 * second) 4 (knocked ∷ []) down

abbrev empty_vlan : Slot
empty_vlan = record {
  opened = true;
  sink = true;
  tap = false;
  source = some (codes "eth0.11");
  tx_if = some (codes "eth0.11");
  sample_rate = 96_000;
  role_pinned = false;
  heard = false;
  past_probing = false;
  recognized = false;
}

abbrev one_vlan : Hearing
one_vlan = record { slots = empty_vlan ∷ []; sniff = []; serve_failed = [] }

abbrev link_mbit : ℕ
link_mbit = 100

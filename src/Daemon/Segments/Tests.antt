-- ===== src/Daemon/Segments/Tests.antt =====
-- A wire taken on a cold box, which then masters it itself (src/main.c).
use reac_pw.Prelude.{◌*◌, ◌≡◌, refl, true, false, none, some, [], ◌∷◌}
use reac_pw.Prelude.Words.{second}
use reac_pw.Prelude.Bytes.{CString, codes}
use reac_pw.Watch.{Verdict, hunting, master, slave, refused}
use reac_pw.Settings.Rate
use reac_pw.Daemon.{
  Intent, intent_auto, intent_master, intent_slave, intent_tap, intent_box, rival_none, Hunt,
  Libreac,
}
use reac_pw.Daemon.Serve.{cfg_defaults, is_slave_verdict, defers_as_tap, cfg_from_conf, serve_cfg}
use reac_pw.Daemon.Licence.{IsEnds}
use reac_pw.Daemon.Segments.{
  Listener, Hearing, World, hearing_serve, Sniffed, box_hunt, yield_turn, hearing_yield, put, find,
}
use reac_pw.Daemon.Segments.Sole.{Sole, IsServing}
use reac_pw.Daemon.Segments.Runs.{serve, yield, here, next, Reach-IsServing}
use reac_pw.Daemon.Segments.Conceded.{drives_on, IsWatched, yield_turn-concedes}

abbrev end_of : Intent → Rate.Role
end_of intent_auto = Rate.master
end_of intent_master = Rate.master
end_of intent_slave = Rate.slave
end_of intent_tap = Rate.master
end_of intent_box = Rate.slave

abbrev end_on : Verdict → Rate.Role
end_on hunting = Rate.slave
end_on refused = Rate.slave
end_on slave = Rate.slave
end_on master = Rate.master

abbrev ends : Libreac
ends = record {
  role_from_intent = end_of;
  hunt_role = λ h. end_on h.verdict;
  heard_anything = λ h. true;
}

slave_end : (v : Verdict) → is_slave_verdict v ≡ true → end_on v ≡ Rate.slave
slave_end hunting h = refl
slave_end refused h = refl
slave_end slave h = refl
slave_end master h = absurd cc

ends-IsEnds : IsEnds ends
ends-IsEnds = record {
  ends_master = refl;
  ends_slave = refl;
  ends_box = refl;
  ends_hunt = λ h s. slave_end h.verdict s;
}

abbrev world : World
world = record {
  max_channels = 40;
  file_role = λ name. none;
  file_model = λ name. none;
  comes_up = λ name c. true;
}

abbrev eth0 : CString
eth0 = codes "eth0"

abbrev idle : Listener
idle = record { opened = false; source = []; cfg = cfg_defaults 40 }

abbrev table : Hearing
table = record { listeners = idle ∷ idle ∷ []; served = 0; dropped = 0; failed = []; marked = [] }

abbrev cold_box : Hunt
cold_box = record {
  verdict = master;
  foreign = false;
  rival = rival_none;
  rival_channels = 0;
  mac = none;
}

abbrev box_master : Hunt
box_master = box_hunt (1 ∷ 2 ∷ 3 ∷ 4 ∷ 5 ∷ 6 ∷ []) 16

abbrev driven : Hearing
driven = hearing_serve ends world table eth0 (some cold_box)

abbrev sniffer : Sniffed
sniffer = record { name = eth0; watched = true; opened_ns = 0; stepped = some box_master }

driven_now : drives_on driven eth0 ≡ true
unfolding hearing_serve put serve_cfg cfg_from_conf cfg_defaults defers_as_tap
driven_now = refl

table-IsServing : IsServing 2 table
table-IsServing = record { sole = ((λ e. absurd cc), ((λ e. absurd cc), tt)); slots = refl }

Reach-IsServing_example :
    IsServing 2 (hearing_yield ends world (5 * second) second (sniffer ∷ []) driven)
Reach-IsServing_example = Reach-IsServing ends (5 * second) table-IsServing (
    next (next here (serve world table eth0 (some cold_box)))
      (yield world driven second (sniffer ∷ [])))

driven-Sole : Sole driven.listeners
unfolding hearing_serve put serve_cfg cfg_from_conf cfg_defaults defers_as_tap
driven-Sole = ((λ e. (refl, tt)), ((λ e. absurd cc), tt))

driven-IsWatched : IsWatched ends world sniffer (find driven.listeners eth0)
unfolding hearing_serve put serve_cfg cfg_from_conf cfg_defaults defers_as_tap
driven-IsWatched = (refl, refl)

yield_turn-concedes_example :
    drives_on (yield_turn ends world (5 * second) second sniffer driven) eth0 ≡ false
yield_turn-concedes_example =
    yield_turn-concedes ends world (5 * second) second sniffer driven box_master ends-IsEnds refl
      driven-Sole driven-IsWatched refl refl

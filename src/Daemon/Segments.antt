-- ===== src/Daemon/Segments.antt =====
-- The table of the segments that are served: `hearing_listener`, `hearing_serve` and `hearing_drop`, and
-- the two polls that serve a segment anew, `hearing_yield` and `hearing_join_box_master_on_pinned`, in
-- src/main.c. Whether a listener comes up is an answer of its engines, and a step of libreac's hunt an
-- input; a segment's name is an interface's, and fits its buffer. The answer to a knock, a forced rate and
-- the lines for the journal are left out.
pub mod Sole
pub mod Kept
pub mod Conceded
pub mod Runs
mod Tests
use reac_pw.Prelude.{
  ℕ, zero, suc, ◌+◌, ◌-◌, Bool, true, false, not, ◌&&◌, ◌||◌, Option, none, some, List, [], ◌∷◌,
  ◌++◌, ltb, if◌then◌else◌, take,
}
use reac_pw.Prelude.Bytes.{CString, str_eq}
use reac_pw.Watch.{Verdict, slave, WatchIn, Act, stand, yield, retake, unrefuse, decide}
use reac_pw.Box.{Model}
use reac_pw.Daemon.{Intent, Hunt, Libreac, rival_box, is_master}
use reac_pw.Daemon.Serve.{Cfg, cfg_from_conf, serve_cfg}

-- The part of `struct listener` that the table is about.
pub record Listener : Type 0 where
  pub opened : Bool
  pub source : CString
  pub cfg : Cfg

-- The part of `struct hearing`; `failed` are the names given back to the interface scan, and `marked`
-- those that were marked as served.
pub record Hearing : Type 0 where
  pub listeners : List Listener
  pub served : ℕ
  pub dropped : ℕ
  pub failed : List CString
  pub marked : List CString

abbrev pub serves : CString → Listener → Bool
serves name l = l.opened && str_eq l.source name

abbrev pub find : List Listener → CString → Option Listener
find [] name = none
find (l ∷ ls) name = let more = find ls name in if serves name l then some l else more

abbrev pub is_some : Option Listener → Bool
is_some none = false
is_some (some l) = true

unfoldable pub hearing_listener : Hearing → CString → Option Listener
hearing_listener h name = find h.listeners name

abbrev pub close_first : List Listener → CString → List Listener
close_first [] name = []
close_first (l ∷ ls) name =
    let more = close_first ls name in
    if serves name l then record l { opened = false } ∷ ls else l ∷ more

unfoldable pub hearing_drop : Hearing → CString → Hearing
hearing_drop h name =
    if is_some (find h.listeners name)
    then record h { listeners = close_first h.listeners name; dropped = h.dropped + 1 }
    else h

-- The first slot that is not open takes a new listener.
abbrev pub filled : Listener → Option (List Listener) → Option (List Listener)
filled l none = none
filled l (some ls) = some (l ∷ ls)

unfoldable pub put : List Listener → Listener → Option (List Listener)
put [] new = none
put (l ∷ ls) new = let more = put ls new in if l.opened then filled l more else some (new ∷ ls)

-- A sniffer at its turn: what its hunt held, when it was opened, and the hunt after a step that changed
-- its verdict.
pub record Sniffed : Type 0 where
  pub name : CString
  pub watched : Bool
  pub opened_ns : ℕ
  pub stepped : Option Hunt

abbrev pub drives : Cfg → Bool
drives c = not c.door_only && not c.tap && is_master c.role

abbrev pub watch_in : Listener → ℕ → ℕ → Verdict → WatchIn
watch_in l now opened_ns verdict = record {
  door = l.cfg.door_only;
  we_master = drives l.cfg;
  pinned = l.cfg.role_pinned;
  vacant = l.cfg.door_vacant;
  verdict = verdict;
  now_ns = now;
  opened_ns = opened_ns;
}

-- The hunt that a box on the wire of a pinned master stands for.
abbrev pub box_hunt : List ℕ → ℕ → Hunt
box_hunt mac channels = record {
  verdict = slave;
  foreign = true;
  rival = rival_box;
  rival_channels = channels;
  mac = some mac;
}

abbrev pub slot_at : List Listener → ℕ → Option Listener
slot_at [] i = none
slot_at (l ∷ ls) zero = some l
slot_at (l ∷ ls) (suc i) = slot_at ls i

-- What the daemon asks of its surroundings: the file's role and the catalogue's entry for a segment, and
-- whether its engines come up.
pub record World : Type 0 where
  pub max_channels : ℕ
  pub file_role : CString → Option Intent
  pub file_model : CString → Option Model
  pub comes_up : CString → Cfg → Bool

abbrev pub failing : Hearing → CString → Hearing
failing h name = record h { failed = h.failed ++ name ∷ [] }

module _ (lib : Libreac) (w : World) where
  abbrev pub cfg_of : CString → Option Hunt → Cfg
  cfg_of name hunt =
      serve_cfg lib (cfg_from_conf lib w.max_channels (w.file_role name) (w.file_model name)) hunt

  abbrev pub marking : Hearing → CString → Cfg → Hearing
  marking h name c = if c.door_vacant then h else record h { marked = h.marked ++ name ∷ [] }

  abbrev pub brought_up : Hearing → CString → Cfg → Option (List Listener) → Hearing
  brought_up h name c none = failing h name
  brought_up h name c (some ls) =
      if w.comes_up name c
      then marking (record h { listeners = ls; served = h.served + 1 }) name c
      else failing h name

  -- A segment that is served already is refused; one that does not come up leaves its slot free.
  unfoldable pub hearing_serve : Hearing → CString → Option Hunt → Hearing
  hearing_serve h name hunt =
      if is_some (find h.listeners name)
      then h
      else (let c = cfg_of name hunt in
          brought_up h name c (put h.listeners (record { opened = true; source = name; cfg = c })))

  abbrev pub served_anew : Hearing → CString → Hunt → Hearing
  served_anew h name hunt = hearing_serve (hearing_drop h name) name (some hunt)

  abbrev pub carried_out : Act → Hearing → CString → Hunt → Hearing
  carried_out stand h name hunt = h
  carried_out yield h name hunt = served_anew h name hunt
  carried_out retake h name hunt = served_anew h name hunt
  carried_out unrefuse h name hunt = served_anew h name hunt

  module _ (stale_ns : ℕ) where
    abbrev pub watched_turn : ℕ → Sniffed → Hearing → Listener → Option Hunt → Hearing
    watched_turn now sn h l none = h
    watched_turn now sn h l (some hunt) =
        if not l.cfg.door_only && not sn.watched
        then h
        else carried_out (decide stale_ns (watch_in l now sn.opened_ns hunt.verdict)) h sn.name hunt

    abbrev pub yield_found : ℕ → Sniffed → Hearing → Option Listener → Hearing
    yield_found now sn h none = h
    yield_found now sn h (some l) = watched_turn now sn h l sn.stepped

    unfoldable pub yield_turn : ℕ → Sniffed → Hearing → Hearing
    yield_turn now sn h = yield_found now sn h (find h.listeners sn.name)

    unfoldable pub hearing_yield : ℕ → List Sniffed → Hearing → Hearing
    hearing_yield now [] h = h
    hearing_yield now (sn ∷ sniff) h = hearing_yield now sniff (yield_turn now sn h)

  -- The box that an engine names as the wire's master, where there is an engine.
  abbrev pub joined_box : Hearing → CString → Option (List ℕ × ℕ) → Hearing
  joined_box h name none = h
  joined_box h name (some (mac, channels)) = served_anew h name (box_hunt mac channels)

  abbrev pub join_slot : (CString → Option (List ℕ × ℕ)) → Hearing → Option Listener → Hearing
  join_slot rival h none = h
  join_slot rival h (some l) =
      if l.opened && not l.cfg.door_only && l.cfg.role_pinned && is_master l.cfg.role
      then joined_box h l.source (rival l.source)
      else h

  -- The slots from `i` on, at most `n` of them.
  unfoldable pub join_from : (CString → Option (List ℕ × ℕ)) → ℕ → ℕ → Hearing → Hearing
  join_from rival zero i h = h
  join_from rival (suc n) i h =
      join_from rival n (suc i) (join_slot rival h (slot_at h.listeners i))

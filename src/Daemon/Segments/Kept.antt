-- ===== src/Daemon/Segments/Kept.antt =====
-- The daemon's moves keep one open listener for a segment (src/main.c).
use reac_pw.Prelude.{
  ℕ, zero, suc, ◌+◌, ◌≡◌, refl, ◌∙◌, inl, inr, true, not, ◌&&◌, Option, none, some, List, [], ◌∷◌,
  Bool-cases,
}
use reac_pw.Prelude.Bytes.{CString}
use reac_pw.Watch.{Act, stand, yield, retake, unrefuse, decide}
use reac_pw.Daemon.{Hunt, Libreac, is_master}
use reac_pw.Daemon.Segments.{
  Listener, Hearing, find, is_some, hearing_drop, put, World, brought_up, hearing_serve,
  served_anew, Sniffed, carried_out, watched_turn, yield_found, yield_turn, hearing_yield, slot_at,
  joined_box, join_slot, join_from, cfg_of, marking, box_hunt, watch_in,
}
use reac_pw.Daemon.Serve.{Cfg}
use reac_pw.Daemon.Segments.Sole.{
  Free, find-Free, put-Sole, length-put, IsServing, hearing_drop-IsServing,
}

module _ (lib : Libreac) (w : World) (n : ℕ) where
  marking-IsServing :
      (h : Hearing) (name : CString) (c : Cfg)
      → IsServing n h
      → IsServing n (marking lib w h name c)
  marking-IsServing h name c v = elim (Bool-cases c.door_vacant) [
    | inl vacant ↦ rw vacant v
    | inr real ↦ rw real (record { sole = v.sole; slots = v.slots })
  ]

  brought_up-IsServing :
      (h : Hearing) (name : CString) (c : Cfg) (o : Option (List Listener))
      → put h.listeners (record { opened = true; source = name; cfg = c }) ≡ o
      → Free name h.listeners
      → IsServing n h
      → IsServing n (brought_up lib w h name c o)
  brought_up-IsServing h name c none e f v = record { sole = v.sole; slots = v.slots }
  brought_up-IsServing h name c (some ls) e f v = elim (Bool-cases (w.comes_up name c)) [
    | inl up ↦
        let new : Listener = record { opened = true; source = name; cfg = c } in
        rw up (
          marking-IsServing (record h { listeners = ls; served = h.served + 1 }) name c
            (record {
              sole = put-Sole h.listeners ls new e f v.sole;
              slots = length-put h.listeners ls new e ∙ v.slots;
            }))
    | inr down ↦ rw down (record { sole = v.sole; slots = v.slots })
  ]

  pub hearing_serve-IsServing :
      (h : Hearing) (name : CString) (hunt : Option Hunt)
      → IsServing n h
      → IsServing n (hearing_serve lib w h name hunt)
  unfolding hearing_serve
  hearing_serve-IsServing h name hunt v = elim (Bool-cases (is_some (find h.listeners name))) [
    | inl there ↦ rw there v
    | inr away ↦
        let c = cfg_of lib w name hunt in
        rw away (
          brought_up-IsServing h name c
            (put h.listeners (record { opened = true; source = name; cfg = c })) refl
            (find-Free h.listeners name away) v)
  ]

  served_anew-IsServing :
      (h : Hearing) (name : CString) (hunt : Hunt)
      → IsServing n h
      → IsServing n (served_anew lib w h name hunt)
  served_anew-IsServing h name hunt v =
      hearing_serve-IsServing (hearing_drop h name) name (some hunt)
        (hearing_drop-IsServing n h name v)

  joined_box-IsServing :
      (h : Hearing) (name : CString) (o : Option (List ℕ × ℕ))
      → IsServing n h
      → IsServing n (joined_box lib w h name o)
  joined_box-IsServing h name none v = v
  joined_box-IsServing h name (some (mac, channels)) v =
      served_anew-IsServing h name (box_hunt mac channels) v

  join_slot-IsServing :
      (rival : CString → Option (List ℕ × ℕ)) (h : Hearing) (o : Option Listener)
      → IsServing n h
      → IsServing n (join_slot lib w rival h o)
  join_slot-IsServing rival h none v = v
  join_slot-IsServing rival h (some l) v =
      elim (Bool-cases
        (l.opened && not l.cfg.door_only && l.cfg.role_pinned && is_master l.cfg.role)) [
          | inl pinned ↦ rw pinned (joined_box-IsServing h l.source (rival l.source) v)
          | inr other ↦ rw other v
        ]

  pub join_from-IsServing :
      (rival : CString → Option (List ℕ × ℕ)) (m i : ℕ) (h : Hearing)
      → IsServing n h
      → IsServing n (join_from lib w rival m i h)
  unfolding join_from
  join_from-IsServing rival zero i h v = v
  join_from-IsServing rival (suc m) i h v =
      join_from-IsServing rival m (suc i) (join_slot lib w rival h (slot_at h.listeners i))
        (join_slot-IsServing rival h (slot_at h.listeners i) v)

  carried_out-IsServing :
      (act : Act) (h : Hearing) (name : CString) (hunt : Hunt)
      → IsServing n h
      → IsServing n (carried_out lib w act h name hunt)
  carried_out-IsServing stand h name hunt v = v
  carried_out-IsServing yield h name hunt v = served_anew-IsServing h name hunt v
  carried_out-IsServing retake h name hunt v = served_anew-IsServing h name hunt v
  carried_out-IsServing unrefuse h name hunt v = served_anew-IsServing h name hunt v

  module _ (stale_ns : ℕ) where
    watched_turn-IsServing :
        (now : ℕ) (sn : Sniffed) (h : Hearing) (l : Listener) (o : Option Hunt)
        → IsServing n h
        → IsServing n (watched_turn lib w stale_ns now sn h l o)
    watched_turn-IsServing now sn h l none v = v
    watched_turn-IsServing now sn h l (some hunt) v =
        elim (Bool-cases (not l.cfg.door_only && not sn.watched)) [
          | inl unwatched ↦ rw unwatched v
          | inr watched ↦ rw watched (
              carried_out-IsServing (decide stale_ns (watch_in l now sn.opened_ns hunt.verdict)) h
                sn.name hunt v)
        ]

    yield_found-IsServing :
        (now : ℕ) (sn : Sniffed) (h : Hearing) (o : Option Listener)
        → IsServing n h
        → IsServing n (yield_found lib w stale_ns now sn h o)
    yield_found-IsServing now sn h none v = v
    yield_found-IsServing now sn h (some l) v = watched_turn-IsServing now sn h l sn.stepped v

    pub hearing_yield-IsServing :
        (now : ℕ) (sniff : List (Sniffed)) (h : Hearing)
        → IsServing n h
        → IsServing n (hearing_yield lib w stale_ns now sniff h)
    unfolding hearing_yield yield_turn
    hearing_yield-IsServing now [] h v = v
    hearing_yield-IsServing now (sn ∷ sniff) h v =
        hearing_yield-IsServing now sniff (yield_turn lib w stale_ns now sn h)
          (yield_found-IsServing now sn h (find h.listeners sn.name) v)

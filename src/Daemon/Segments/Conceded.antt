-- ===== src/Daemon/Segments/Conceded.antt =====
-- A wire that another masters is not driven after the poll that finds it out (src/main.c).
use reac_pw.Prelude.{
  ℕ, ◌+◌, ◌≡◌, refl, ◌∙◌, inl, inr, Bool, true, false, not, ◌&&◌, Option, none, some, List, [], ◌∷◌,
  arith, Bool-cases, Option-cases,
}
use reac_pw.Prelude.Bytes.{CString, str_eq_refl}
use reac_pw.Watch.{Act, stand, yield, retake, unrefuse, decide}
use reac_pw.Daemon.{intent_auto, Hunt, Libreac}
use reac_pw.Daemon.Serve.{Cfg, is_slave_verdict}
use reac_pw.Daemon.Licence.{IsEnds, asks, may_drive, is_open, serve_cfg-drives}
use reac_pw.Daemon.Licence
use reac_pw.Daemon.Segments.{
  Listener, Hearing, serves, find, is_some, hearing_drop, put, World, cfg_of, marking, brought_up,
  hearing_serve, served_anew, Sniffed, drives, watch_in, carried_out, yield_found, yield_turn,
}
use reac_pw.Daemon.Segments.Sole.{Free, Sole, close_first-gone, find-Free}

abbrev pub drives_in : Option Listener → Bool
drives_in none = false
drives_in (some l) = drives l.cfg

-- A listener of this name has the master's engine.
abbrev pub drives_on : Hearing → CString → Bool
drives_on h name = drives_in (find h.listeners name)

Free-find : (ls : List Listener) (name : CString) → Free name ls → find ls name ≡ none
Free-find [] name f = refl
Free-find (l ∷ ls) name f = rw f.0 (Free-find ls name f.1)

find-put :
    (ls rs : List Listener) (new : Listener) (name : CString)
    → put ls new ≡ some rs
    → serves name new ≡ true
    → Free name ls
    → find rs name ≡ some new
unfolding put
find-put [] rs new name e s f = absurd cc
find-put (l ∷ ls) rs new name e s f = elim (Bool-cases l.opened) [
  | inl busy ↦ elim (Option-cases (put ls new)) [
    | inl full ↦ absurd (ground arith)
    | inr (r, p) ↦
        let made : rs ≡ l ∷ r = ground arith in rw (made, f.0) (find-put ls r new name p s f.1)
  ]
  | inr idle ↦ let made : rs ≡ new ∷ ls = ground arith in rw (made, s)
]

dropped-Free :
    (h : Hearing) (name : CString) → Sole h.listeners → Free name (hearing_drop h name).listeners
unfolding hearing_drop
dropped-Free h name s = elim (Bool-cases (is_some (find h.listeners name))) [
  | inl there ↦ rw there (close_first-gone h.listeners name s)
  | inr away ↦ rw away (find-Free h.listeners name away)
]

-- A standing act on a hunt that found another master is one on a listener that does not drive.
stand-drives :
    (stale_ns : ℕ) (l : Listener) (now opened_ns : ℕ) (hunt : Hunt)
    → is_slave_verdict hunt.verdict ≡ true
    → l.cfg.role_pinned ≡ false
    → decide stale_ns (watch_in l now opened_ns hunt.verdict) ≡ stand
    → drives l.cfg ≡ false
unfolding decide
stand-drives stale_ns l now opened_ns hunt s p e = ground arith

drives_same : (c : Cfg) → drives c ≡ Licence.drives c
drives_same c = ground arith

module _ (lib : Libreac) (w : World) where
  -- The file leaves the segment's role to the wire.
  abbrev pub IsLeft : CString → Type 0
  IsLeft name = asks (w.file_role name) (w.file_model name) ≡ intent_auto

  cfg_of-drives :
      (name : CString) (hunt : Hunt)
      → IsEnds lib
      → IsLeft name
      → is_slave_verdict hunt.verdict ≡ true
      → drives (cfg_of lib w name (some hunt)) ≡ false
  cfg_of-drives name hunt e a s =
      let d =
        (serve_cfg-drives lib w.max_channels (w.file_role name) (w.file_model name) hunt e).0 in
      let slave_end = e.ends_hunt hunt s in
      let drives_not : may_drive lib intent_auto hunt ≡ false = ground arith in
      drives_same (cfg_of lib w name (some hunt)) ∙ rw a at d ∙ drives_not

  marking-listeners :
      (h : Hearing) (name : CString) (c : Cfg) → (marking lib w h name c).listeners ≡ h.listeners
  marking-listeners h name c = ground arith

  brought_up-drives :
      (h : Hearing) (name : CString) (c : Cfg) (o : Option (List Listener))
      → put h.listeners (record { opened = true; source = name; cfg = c }) ≡ o
      → Free name h.listeners
      → drives c ≡ false
      → drives_on (brought_up lib w h name c o) name ≡ false
  brought_up-drives h name c none e f d = rw (Free-find h.listeners name f)
  brought_up-drives h name c (some ls) e f d = elim (Bool-cases (w.comes_up name c)) [
    | inl up ↦
        let new : Listener = record { opened = true; source = name; cfg = c } in
        let h' : Hearing = record h { listeners = ls; served = h.served + 1 } in
        rw
          (up, marking-listeners h' name c, find-put h.listeners ls new name e (str_eq_refl name) f)
          d
    | inr down ↦ rw (down, Free-find h.listeners name f)
  ]

  served_anew-drives :
      (h : Hearing) (name : CString) (hunt : Hunt)
      → Sole h.listeners
      → drives (cfg_of lib w name (some hunt)) ≡ false
      → drives_on (served_anew lib w h name hunt) name ≡ false
  unfolding hearing_serve
  served_anew-drives h name hunt s d =
      let h' = hearing_drop h name in
      let free = dropped-Free h name s in
      let c = cfg_of lib w name (some hunt) in
      rw (Free-find h'.listeners name free) (
        brought_up-drives h' name c
          (put h'.listeners (record { opened = true; source = name; cfg = c })) refl free d)

  carried_out-drives :
      (act : Act) (h : Hearing) (name : CString) (hunt : Hunt)
      → Sole h.listeners
      → drives (cfg_of lib w name (some hunt)) ≡ false
      → (act ≡ stand → drives_on h name ≡ false)
      → drives_on (carried_out lib w act h name hunt) name ≡ false
  carried_out-drives stand h name hunt s d k = k refl
  carried_out-drives yield h name hunt s d k = served_anew-drives h name hunt s d
  carried_out-drives retake h name hunt s d k = served_anew-drives h name hunt s d
  carried_out-drives unrefuse h name hunt s d k = served_anew-drives h name hunt s d

  -- A segment's listener that no pin holds, and that its sniffer watches or that is a door.
  abbrev pub IsWatched : Sniffed → Option Listener → Type 0
  IsWatched sn none = Unit
  IsWatched sn (some l) =
      (l.cfg.role_pinned ≡ false) × ((not l.cfg.door_only && not sn.watched) ≡ false)

  yield_found-drives :
      (stale_ns now : ℕ) (sn : Sniffed) (h : Hearing) (o : Option Listener) (hunt : Hunt)
      → find h.listeners sn.name ≡ o
      → sn.stepped ≡ some hunt
      → is_slave_verdict hunt.verdict ≡ true
      → drives (cfg_of lib w sn.name (some hunt)) ≡ false
      → Sole h.listeners
      → IsWatched sn o
      → drives_on (yield_found lib w stale_ns now sn h o) sn.name ≡ false
  yield_found-drives stale_ns now sn h none hunt f st v d s k = rw f
  yield_found-drives stale_ns now sn h (some l) hunt f st v d s k =
      rw (st, k.1)
        (carried_out-drives (decide stale_ns (watch_in l now sn.opened_ns hunt.verdict)) h sn.name
          hunt s d (λ e. rw f (stand-drives stale_ns l now sn.opened_ns hunt v k.0 e)))

  -- Where libreac's roles are the ends that an intent names, and the slave's for a wire that another
  -- masters, and where neither the file nor a pin answers for a segment: once its hunt finds that another
  -- masters its wire, the daemon does not drive it any more after the poll, whatever it did before, and
  -- whether or not the segment comes up again.
  pub yield_turn-concedes :
      (stale_ns now : ℕ) (sn : Sniffed) (h : Hearing) (hunt : Hunt)
      → IsEnds lib
      → IsLeft sn.name
      → Sole h.listeners
      → IsWatched sn (find h.listeners sn.name)
      → sn.stepped ≡ some hunt
      → is_slave_verdict hunt.verdict ≡ true
      → drives_on (yield_turn lib w stale_ns now sn h) sn.name ≡ false
  unfolding yield_turn
  yield_turn-concedes stale_ns now sn h hunt e a s k st v =
      yield_found-drives stale_ns now sn h (find h.listeners sn.name) hunt refl st v
        (cfg_of-drives sn.name hunt e a v) s k

-- ===== src/Daemon/Segments/Runs.antt =====
-- The daemon's moves on its table of segments, and what every run of them keeps (src/main.c).
use reac_pw.Prelude.{ℕ, Option, List, length}
use reac_pw.Prelude.Bytes.{CString}
use reac_pw.Daemon.{Hunt, Libreac}
use reac_pw.Daemon.Segments.{
  Hearing, hearing_drop, World, hearing_serve, Sniffed, hearing_yield, join_from,
}
use reac_pw.Daemon.Segments.Sole.{IsServing, hearing_drop-IsServing}
use reac_pw.Daemon.Segments.Kept.{
  hearing_serve-IsServing, hearing_yield-IsServing, join_from-IsServing,
}

module _ (lib : Libreac) (stale_ns : ℕ) where
  -- A move: a segment is served or dropped, or one of the two polls runs; the file and the engines may
  -- answer otherwise each time.
  pub data Step : Hearing → Hearing → Type 0 where
    serve :
        (w : World) (h : Hearing) (name : CString) (hunt : Option Hunt)
        → Step h (hearing_serve lib w h name hunt)
    drop : (h : Hearing) (name : CString) → Step h (hearing_drop h name)
    yield :
        (w : World) (h : Hearing) (now : ℕ) (sniff : List Sniffed)
        → Step h (hearing_yield lib w stale_ns now sniff h)
    join :
        (w : World) (h : Hearing) (rival : CString → Option (List ℕ × ℕ))
        → Step h (join_from lib w rival (length h.listeners) 0 h)

  pub data Reach (start : Hearing) : Hearing → Type 0 where
    here : Reach start start
    next : {h h' : Hearing} → Reach start h → Step h h' → Reach start h'

  Step-IsServing : {n : ℕ} {h h' : Hearing} → Step h h' → IsServing n h → IsServing n h'
  Step-IsServing {n} (serve w h name hunt) v = hearing_serve-IsServing lib w n h name hunt v
  Step-IsServing {n} (drop h name) v = hearing_drop-IsServing n h name v
  Step-IsServing {n} (yield w h now sniff) v =
      hearing_yield-IsServing lib w n stale_ns now sniff h v
  Step-IsServing {n} (join w h rival) v =
      join_from-IsServing lib w n rival (length h.listeners) 0 h v

  -- Whatever the wires, the file and the engines say, and in whatever order segments are served, dropped,
  -- yielded and joined: from a table that serves each segment with one listener at most, every table
  -- that is reached does, in the same slots.
  pub Reach-IsServing :
      {n : ℕ} {start h : Hearing} → IsServing n start → Reach start h → IsServing n h
  Reach-IsServing v here = v
  Reach-IsServing v (next r s) = Step-IsServing s (Reach-IsServing v r)

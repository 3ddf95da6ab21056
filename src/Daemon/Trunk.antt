-- ===== src/Daemon/Trunk.antt =====
-- Whether a parent is a trunk now: the topology tap's frames (`on_topo_io`, `topo_note_reac_vid`) and
-- `topo_trunk_now` in src/main.c. The table of VLANs is libreac's: whether it calls the parent a trunk is
-- an input, and what the tap tells it is an output. The window is libreac's REAC_HUNT_WINDOW_NS.
pub mod Fresh
use reac_pw.Prelude.{
  ℕ, ◌+◌, Bool, true, false, not, ◌&&◌, ◌||◌, Option, none, some, List, [], ◌∷◌, ◌++◌, ltb, leb,
  ◌==◌, if◌then◌else◌, length,
}
use reac_pw.Prelude.Words.{sub64}

-- What a frame's tag says (libreac's `enum reac_topo_kind`).
pub data Kind : Type 0 where
  untagged tagged tagged_other : Kind

pub record Frame : Type 0 where
  pub ifindex : ℕ
  pub outgoing : Bool
  pub kind : Kind
  pub vid : ℕ

-- `struct topo_tap`, without its socket and the words of the journal.
pub record Tap : Type 0 where
  pub ifindex : ℕ
  pub linkup_ns : ℕ
  pub last_tagged_ns : ℕ
  pub reac_vids : List ℕ
  pub said_stale : Bool
  pub said_foreign : Bool

abbrev pub has_vid : List ℕ → ℕ → Bool
has_vid [] vid = false
has_vid (v ∷ vids) vid = v == vid || has_vid vids vid

-- The VIDs that have carried tagged REAC, at most `max_vlans` of them.
unfoldable pub note_reac_vid : ℕ → List ℕ → ℕ → List ℕ
note_reac_vid max_vlans vids vid =
    if vid == 0
    then vids
    else if has_vid vids vid
    then vids
    else if leb max_vlans (length vids)
    then vids
    else vids ++ vid ∷ []

abbrev pub is_tagged : Kind → Bool
is_tagged untagged = false
is_tagged tagged = true
is_tagged tagged_other = false

-- A frame that arrived on this parent.
abbrev pub is_own : Tap → Frame → Bool
is_own tp f = f.ifindex == tp.ifindex && not f.outgoing

-- The tap after a frame, and whether the table is told of it.
unfoldable pub on_frame : ℕ → Tap → ℕ → Frame → Tap × Bool
on_frame max_vlans tp now f =
    if not (is_own tp f)
    then (record tp { said_foreign = true }, false)
    else if is_tagged f.kind
    then (
      record tp {
        last_tagged_ns = now;
        said_stale = false;
        reac_vids = note_reac_vid max_vlans tp.reac_vids f.vid;
      },
      true,
    )
    else (tp, true)

module _ (window_ns : ℕ) where
  abbrev pub tapped_now : Tap → ℕ → Bool
  tapped_now tp now =
      if not (tp.last_tagged_ns == 0)
      then leb now tp.last_tagged_ns || ltb (sub64 now tp.last_tagged_ns) window_ns
      else leb now tp.linkup_ns || ltb (sub64 now tp.linkup_ns) window_ns

  -- Without a tap of its own the table's answer stands.
  unfoldable pub trunk_now : Bool → Option Tap → ℕ → Bool
  trunk_now is_trunk none now = is_trunk
  trunk_now is_trunk (some tp) now = is_trunk && tapped_now tp now

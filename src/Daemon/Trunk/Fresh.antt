-- ===== src/Daemon/Trunk/Fresh.antt =====
-- A trunk is refused only while its tags are fresh (src/main.c).
use reac_pw.Prelude.{
  ℕ, ◌+◌, ◌<◌, ◌≤◌, ◌^◌, ◌≡◌, ◌↔◌, ◌⊎◌, refl, Bool, true, not, ◌&&◌, some, List, [], ◌∷◌, arith,
  ◌==◌, if◌then◌else◌,
}
use reac_pw.Daemon.Trunk.{Frame, Tap, is_tagged, on_frame, trunk_now}

-- The tap after frames, each at its time.
abbrev pub frames : ℕ → Tap → List (ℕ × Frame) → Tap
frames max_vlans tp [] = tp
frames max_vlans tp ((now, f) ∷ seen) = frames max_vlans (on_frame max_vlans tp now f).0 seen

-- The time of the last frame that arrived tagged on the interface itself, or `since`.
abbrev pub last_tag : ℕ → ℕ → List (ℕ × Frame) → ℕ
last_tag ifindex since [] = since
last_tag ifindex since ((now, f) ∷ seen) =
    last_tag ifindex
      (if f.ifindex == ifindex && not f.outgoing && is_tagged f.kind then now else since) seen

pub record Tagged (tp : Tap) (ifindex linkup_ns last_ns : ℕ) : Type 0 where
  pub at_index : tp.ifindex ≡ ifindex
  pub up_since : tp.linkup_ns ≡ linkup_ns
  pub last_at : tp.last_tagged_ns ≡ last_ns

pub on_frame-Tagged :
    (max_vlans : ℕ) (tp : Tap) (now : ℕ) (f : Frame) (i u l : ℕ)
    → Tagged tp i u l
    → Tagged
        (on_frame max_vlans tp now f).0
        i
        u
        (if f.ifindex == i && not f.outgoing && is_tagged f.kind then now else l)
unfolding on_frame
on_frame-Tagged max_vlans tp now f i u l t = record {
  at_index = ground (arith, t.at_index);
  up_since = ground (arith, t.up_since);
  last_at = ground (arith, t.at_index, t.last_at);
}

pub frames-Tagged :
    (max_vlans : ℕ) (seen : List (ℕ × Frame)) (tp : Tap) (i u l : ℕ)
    → Tagged tp i u l
    → Tagged (frames max_vlans tp seen) i u (last_tag i l seen)
frames-Tagged max_vlans [] tp i u l t = t
frames-Tagged max_vlans ((now, f) ∷ seen) tp i u l t =
    frames-Tagged max_vlans seen (on_frame max_vlans tp now f).0 i u
      (if f.ifindex == i && not f.outgoing && is_tagged f.kind then now else l)
      (on_frame-Tagged max_vlans tp now f i u l t)

abbrev pub since_ns : ℕ → ℕ → ℕ
since_ns linkup_ns last_ns = if last_ns == 0 then linkup_ns else last_ns

pub trunk_now-Tagged :
    (window_ns : ℕ) (is_trunk : Bool) (tp : Tap) (now i u l : ℕ)
    → Tagged tp i u l
    → now < 2 ^ 64
    → ((trunk_now window_ns is_trunk (some tp) now ≡ true)
        ↔ ((is_trunk ≡ true) × ((now ≤ since_ns u l) ⊎ (now < since_ns u l + window_ns))))
unfolding trunk_now
trunk_now-Tagged window_ns is_trunk tp now i u l t lt = ground (arith, t.up_since, t.last_at)

-- Whatever frames its tap reads, a parent is a trunk just where the table calls it one and less than a
-- window has passed since the last frame that arrived tagged on its own interface or, before the first,
-- since the link came up. Frames of another interface, frames of the daemon's own and tags on another
-- ethertype prove nothing.
pub trunk_now-fresh :
    (max_vlans window_ns : ℕ) (is_trunk : Bool) (tp : Tap) (seen : List (ℕ × Frame)) (now : ℕ)
    → now < 2 ^ 64
    → let since = since_ns tp.linkup_ns (last_tag tp.ifindex tp.last_tagged_ns seen) in
      ((trunk_now window_ns is_trunk (some (frames max_vlans tp seen)) now ≡ true)
        ↔ ((is_trunk ≡ true) × ((now ≤ since) ⊎ (now < since + window_ns))))
trunk_now-fresh max_vlans window_ns is_trunk tp seen now lt =
    trunk_now-Tagged window_ns is_trunk (frames max_vlans tp seen) now tp.ifindex tp.linkup_ns
      (last_tag tp.ifindex tp.last_tagged_ns seen)
      (frames-Tagged max_vlans seen tp tp.ifindex tp.linkup_ns tp.last_tagged_ns
        (record { at_index = refl; up_since = refl; last_at = refl }))
      lt

-- ===== src/KnockWire/Ladder.antt =====
-- The wake ladder of a knock (`reac_knock_ladder_step` in src/reac_knock_wire.c).
use reac_pw.Prelude.{ℕ, ◌==◌, Bool, true, not, ◌||◌, ltb, if◌then◌else◌}
use reac_pw.Prelude.Int.{ℤ}
use reac_pw.Prelude.Words.{sub64}
use reac_pw.KnockWire.Interface.{Libreac}
use reac_pw.KnockWire.{Wire}
use reac_pw.Wake
use reac_pw.Wake.{Obs}

pub record KnockLadder : Type 0 where
  pub wake : Wake.Wake
  pub pushes0 : ℕ
  pub pushes_last : ℕ
  pub frames0 : ℕ
  pub knocks_seen : ℕ

module _ (lib : Libreac) where
  -- A fresh spell, or the fresh sniffer of a link that came back.
  abbrev pub is_fresh : KnockLadder → Wire lib → ℕ → Bool
  is_fresh kl w rx_frames =
      not (w.knocks == kl.knocks_seen) || ltb w.pushes kl.pushes_last || ltb rx_frames kl.frames0

  -- The counters from which the spell counts.
  abbrev pub based : KnockLadder → Wake.Wake → Wire lib → ℕ → KnockLadder
  based kl wake w rx_frames = record {
    wake = wake;
    pushes0 = w.pushes;
    pushes_last = kl.pushes_last;
    frames0 = rx_frames;
    knocks_seen = w.knocks;
  }

  abbrev pub reopened : KnockLadder → Wire lib → ℕ → ℕ → KnockLadder
  reopened kl w now rx_frames =
      if kl.wake.opened_ns == 0
      then based kl (Wake.init now) w rx_frames
      else if is_fresh kl w rx_frames
      then based kl (Wake.reopen kl.wake now) w rx_frames
      else kl

  abbrev pub observed : KnockLadder → Wire lib → ℕ → ℤ → Bool → Bool → Obs
  observed kl w rx_frames carrier siblings_served host_nic = record {
    probing = true;
    carrier = carrier;
    rx_box_frames = sub64 rx_frames kl.frames0;
    scene_pushes = sub64 w.pushes kl.pushes0;
    siblings_served = siblings_served;
    host_nic = host_nic;
    tx_frames = w.spell_sent;
  }

  unfoldable pub ladder_step :
      KnockLadder → Wire lib → ℕ → ℕ → ℤ → Bool → Bool → KnockLadder × Wake.Act × Obs
  ladder_step kl w now rx_frames carrier siblings_served host_nic =
      let kl' = reopened kl w now rx_frames in
      let o = observed kl' w rx_frames carrier siblings_served host_nic in
      let (wake, act) = Wake.step kl'.wake now o in
      (record kl' { wake = wake; pushes_last = w.pushes }, act, o)

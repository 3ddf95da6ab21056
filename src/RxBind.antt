-- ===== src/RxBind.antt =====
-- src/reac_rx_bind.c and src/reac_rx_bind.h: which peer the receive gate is locked to. A MAC is its
-- list of bytes. `reac_mac48_unpack` is libreac's, and a parameter; the call of libreac's
-- `reac_rx_peer_reset` is the MAC that an operation hands it.
pub mod Stable
mod Tests
use reac_pw.Prelude.{
  ℕ, ◌*◌, Bool, true, false, not, ◌&&◌, ◌||◌, Option, none, some, List, [], ltb, ◌==◌,
  if◌then◌else◌,
}
use reac_pw.Prelude.Words.{sub64}
use reac_pw.Prelude.Bytes.{str_eq}

abbrev pub Mac : Type 0
Mac = List ℕ

abbrev pub bind_frames : ℕ
bind_frames = 8

abbrev pub stable_ns : ℕ
stable_ns = 500 * 1_000_000

pub record Bind : Type 0 where
  pub locked_mac : Mac
  pub locked : Bool
  pub from_hint : Bool
  pub cand : Mac
  pub have_cand : Bool
  pub cand_since_ns : ℕ

unfoldable pub init : Bind
init = record {
  locked_mac = [];
  locked = false;
  from_hint = false;
  cand = [];
  have_cand = false;
  cand_since_ns = 0;
}

-- The state, the MAC handed to `reac_rx_peer_reset`, and the answer of the tick.
pub record Outcome : Type 0 where
  pub state : Bind
  pub reset : Option Mac
  pub moved : Bool

abbrev pub lock_to : Bind → Mac → Bool → Bind
lock_to b mac from_hint = record b { locked_mac = mac; locked = true; from_hint = from_hint }

unfoldable pub hint : Bind → Mac → Outcome
hint b mac = record { state = lock_to b mac true; reset = some mac; moved = false }

abbrev pub quiet : Bind → Outcome
quiet b = record { state = b; reset = none; moved = false }

module _ (unpack : ℕ → Mac) where
  unfoldable pub tick : Bind → ℕ → ℕ → ℕ → Outcome
  tick b learned frames_ok now =
      let mac = unpack learned in
      if b.locked && b.from_hint
      then quiet b
      else if learned == 0
      then quiet (record b { have_cand = false })
      else if b.locked && str_eq b.locked_mac mac
      then quiet (record b { have_cand = false })
      else if not b.have_cand || not (str_eq b.cand mac)
      then quiet (record b { cand = mac; have_cand = true; cand_since_ns = now })
      else if ltb frames_ok bind_frames
          || ltb now b.cand_since_ns
          || ltb (sub64 now b.cand_since_ns) stable_ns
      then quiet b
      else record {
        state = record (lock_to b mac false) { have_cand = false };
        reset = some mac;
        moved = true;
      }

-- ===== src/KnockWire/Interface.antt =====
-- What src/reac_knock_wire.c calls of libreac: the hunting master, the masterless licence, and the
-- frames. Nothing of it is defined here; a state and its steps are parameters.
use reac_pw.Prelude.{ℕ, Bool, Option}
use reac_pw.Prelude.Bytes.{CString}

-- `enum reac_master_emit`, with every control block that is no part of a scene's transfer as one.
pub data Emit : Type 0 where
  filler scene_head scene_chunk scene_tail control : Emit

pub record Libreac : Type 1 where
  -- `struct reac_master`: a fresh one with the idle console, for an address and a cadence.
  pub Master : Type 0
  pub fresh_master : CString → ℕ → Master
  pub cycle_len : Master → ℕ
  pub cycle_pos : Master → ℕ
  pub sub01_off : Master → ℕ
  -- One slot: what it emits, its counter and index, and the master after it.
  pub next_emit : Master → Emit
  pub next_counter : Master → ℕ
  pub next_idx : Master → ℕ
  pub next_master : Master → Master
  -- The frame of a slot, or none where no control block could be stamped on it.
  pub stamped_frame : Master → CString → ℕ → Emit → ℕ → Option CString
  pub scene_chunks : ℕ
  pub frame_bytes : ℕ
  -- A frame that carries a control block, other than FILLER.
  pub is_control : CString → Bool
  -- `struct reac_knock`.
  pub Licence : Type 0
  pub licence_init : ℕ → Licence
  pub licence_heard : Licence → ℕ → Licence
  pub licence_after : Licence → ℕ → Licence
  pub licence_drives : Licence → ℕ → Bool
  pub listen_ns : ℕ

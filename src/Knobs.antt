-- ===== src/Knobs.antt =====
-- src/reac_knobs.c and src/reac_knobs.h: the knobs of the environment and the configuration, and what
-- the command line sets above them. The layers behind the command line (`reac_conf_lookup`) and the
-- reading of a flag (`reac_envflag_parse`) are libreac's, and parameters; so is `getenv`.
pub mod Argv
mod Tests
use reac_pw.Prelude.{
  ℕ, suc, ◌+◌, ◌-◌, Bool, true, false, not, ◌&&◌, ◌||◌, Option, none, some, List, [], ◌∷◌, ◌++◌,
  ltb, leb, ◌==◌, if◌then◌else◌, length, take,
}
use reac_pw.Prelude.Int.{ℤ, pos, negsuc}
use reac_pw.Prelude.Bytes.{CString, codes, str_eq}
use reac_pw.Prelude.Members.{member}

pub record Knob : Type 0 where
  pub key : CString
  pub conf_capable : Bool

abbrev pub capable : List CString → List Knob
capable [] = []
capable (key ∷ keys) = record { key = key; conf_capable = true } ∷ capable keys

-- The keys of the table, every one of them read through the layers.
unfoldable pub knob_keys : List CString
knob_keys =
    codes "REAC_TX"
    ∷ codes "REAC_MIXER"
    ∷ codes "REAC_NAME"
    ∷ codes "REAC_HEADAMP"
    ∷ codes "REAC_SRC_MAC"
    ∷ codes "REAC_BOX_CHANNELS"
    ∷ codes "REAC_RATE"
    ∷ codes "REAC_DEBUG"
    ∷ codes "REACPW_BOX_MASTER_FRAME"
    ∷ codes "REACPW_BOX_MASTER_BURST"
    ∷ codes "REACPW_BOX_MASTER_FILL"
    ∷ codes "REACPW_BOX_MASTER_PRESILENCE_MS"
    ∷ codes "REACPW_CLOCK_FOLLOW"
    ∷ codes "REACPW_CLOCK_REF"
    ∷ codes "REACPW_CATCHUP_MAX_SLOTS"
    ∷ codes "REACPW_RATE_MATCH"
    ∷ codes "REACPW_PACER"
    ∷ codes "REACPW_PACER_LEAD_US"
    ∷ codes "REACPW_RT_PRIO"
    ∷ codes "REACPW_GRANT_ON_DECLARE"
    ∷ codes "REACPW_GRANT_DWELL_MS"
    ∷ codes "REACPW_GRANT_DWELL_S"
    ∷ codes "REACPW_NO_ENROLL"
    ∷ codes "REACPW_EST_SCENE"
    ∷ codes "REAC_IFACES_ALLOW_WIRELESS"
    ∷ codes "REACPW_GUARD_FLOOR_FRAMES"
    ∷ codes "REACPW_NO_HEADAMP"
    ∷ codes "REACPW_LINK_MBIT"
    ∷ []

unfoldable pub knobs : List Knob
knobs = capable knob_keys

-- REAC_KNOBS_ARGV_MAX, and the bytes of a value.
abbrev pub argv_max : ℕ
argv_max = 32

abbrev pub value_len : ℕ
value_len = 256

pub record Setting : Type 0 where
  pub key : CString
  pub value : CString

abbrev pub keys : List Setting → List CString
keys [] = []
keys (s ∷ tab) = s.key ∷ keys tab

unfoldable pub knob_known : CString → Bool
knob_known key = member key knob_keys

-- The first row with the key gets the value.
abbrev pub store : List Setting → CString → CString → List Setting
store [] key value = []
store (s ∷ tab) key value =
    let more = store tab key value in
    if str_eq s.key key then record s { value = value } ∷ tab else s ∷ more

-- One `--set KEY=VALUE`, and whether it was taken.
unfoldable pub set_argv : List Setting → CString → CString → List Setting × Bool
set_argv tab key value =
    if length key == 0 || not (knob_known key)
    then (tab, false)
    else if member key (keys tab)
    then (store tab key (take (value_len - 1) value), true)
    else if leb argv_max (length tab)
    then (tab, false)
    else (tab ++ record { key = key; value = take (value_len - 1) value } ∷ [], true)

unfoldable pub argv_lookup : List Setting → CString → Option CString
argv_lookup [] key = none
argv_lookup (s ∷ tab) key =
    let more = argv_lookup tab key in if str_eq s.key key then some s.value else more

-- libreac's layers, and the command line above them.
pub data Layer : Type 0 where
  unset argv segment env host last_resort : Layer

pub record Found : Type 0 where
  pub layer : Layer
  pub value : CString

abbrev pub from_argv : ℕ → Option CString → Found → Found
from_argv cap none below = below
from_argv cap (some value) below = record { layer = argv; value = take (cap - 1) value }

module _ (conf_lookup : CString → Option CString → ℕ → Found) where
  unfoldable pub resolve : List Setting → CString → ℕ → Found
  resolve tab key cap = from_argv cap (argv_lookup tab key) (conf_lookup key none cap)

  unfoldable pub resolve_port : List Setting → CString → CString → ℕ → Found
  resolve_port tab key name cap =
      from_argv cap (argv_lookup tab key) (conf_lookup key (some name) cap)

  abbrev pub is_unset : Layer → Bool
  is_unset unset = true
  is_unset argv = false
  is_unset segment = false
  is_unset env = false
  is_unset host = false
  is_unset last_resort = false

  module _ (envflag_parse : CString → ℤ) where
    abbrev pub flag_or : ℤ → ℤ → ℤ
    flag_or dflt (pos n) = pos n
    flag_or dflt (negsuc n) = dflt

    abbrev pub flag_of : ℤ → Found → ℤ
    flag_of dflt f = if is_unset f.layer then dflt else flag_or dflt (envflag_parse f.value)

    unfoldable pub conf_flag : CString → ℤ → ℤ
    conf_flag key dflt = flag_of dflt (conf_lookup key none 16)

    unfoldable pub resolve_flag : List Setting → CString → ℤ → ℤ
    resolve_flag tab key dflt = flag_of dflt (resolve tab key value_len)

  abbrev pub layer_name : Layer → CString
  layer_name argv = codes "cli"
  layer_name host = codes "conf"
  layer_name last_resort = codes "conf"
  layer_name unset = codes "env"
  layer_name segment = codes "env"
  layer_name env = codes "env"

  -- A line of the announcement.
  pub record Line : Type 0 where
    pub key : CString
    pub value : CString
    pub layer_name : CString

  module _ (getenv : CString → Option CString) where
    abbrev pub env_line : CString → Option CString → Option Line
    env_line key none = none
    env_line key (some []) = none
    env_line key (some (c ∷ e)) =
        some (record { key = key; value = take 511 (c ∷ e); layer_name = codes "env" })

    abbrev pub conf_line : CString → Found → Option Line
    conf_line key f =
        if is_unset f.layer
        then none
        else some (record { key = key; value = f.value; layer_name = layer_name f.layer })

    abbrev pub line_of : List Setting → Knob → Option Line
    line_of tab k =
        if k.conf_capable
        then conf_line k.key (resolve tab k.key 512)
        else env_line k.key (getenv k.key)

    -- The lines, and how many knobs are set and how many are not.
    pub record Announced : Type 0 where
      pub lines : List Line
      pub set : ℕ
      pub unset : ℕ

    abbrev pub count_line : Option Line → Announced → Announced
    count_line none a = record a { unset = suc a.unset }
    count_line (some l) a = record a { lines = l ∷ a.lines; set = suc a.set }

    unfoldable pub announce : List Setting → List Knob → Announced
    announce tab [] = record { lines = []; set = 0; unset = 0 }
    announce tab (k ∷ ks) = count_line (line_of tab k) (announce tab ks)

-- ===== src/Settings/Rate.antt =====
-- src/reac_rate_cfg.c: the rates that a segment may be set to. The bits of a mask of drivable rates
-- are libreac's: a bit is its place here, and the places are parameters. So is the setting's key.
use reac_pw.Prelude.{
  ℕ, ◌+◌, ◌-◌, ◌/◌, ◌%◌, ◌^◌, Bool, false, not, ◌||◌, Option, none, some, List, [], ◌∷◌, ◌++◌, ltb,
  ◌==◌, if◌then◌else◌, length, take,
}
use reac_pw.Prelude.Int.{ℤ, pos, negsuc}
use reac_pw.Prelude.Text.{decimal_text}
use reac_pw.Prelude.Bytes.{CString, codes}
use reac_pw.Settings.{Parsed, unusable, found, Props, value_pod_to_int, prop_parse}

-- The two ends of a wire (libreac's `enum reac_role`).
pub data Role : Type 0 where
  master slave : Role

pub data Refuse : Type 0 where
  nothing role_slave not_closed not_drivable : Refuse

-- facts/reac_facts.h, REAC_SAMPLE_RATE_44K1, REAC_SAMPLE_RATE_48K and REAC_SAMPLE_RATE_96K.
abbrev pub rate_44k1 : ℕ
rate_44k1 = 44_100

abbrev pub rate_48k : ℕ
rate_48k = 48_000

abbrev pub rate_96k : ℕ
rate_96k = 96_000

abbrev pub is_closed : ℤ → Bool
is_closed (pos hz) = hz == rate_44k1 || hz == rate_48k || hz == rate_96k
is_closed (negsuc n) = false

-- The places of REAC_RATE_BIT_44100, REAC_RATE_BIT_48000 and REAC_RATE_BIT_96000.
pub record Bits : Type 0 where
  pub bit_44100 : ℕ
  pub bit_48000 : ℕ
  pub bit_96000 : ℕ

-- Whether a mask has the bit at a place.
unfoldable pub has : ℕ → ℕ → Bool
has mask place = (mask / 2 ^ place) % 2 == 1

-- The text in a buffer's first bytes, and the length of the whole.
pub record Csv : Type 0 where
  pub text : CString
  pub len : ℕ

-- The cell appended to the scratch text of 32 bytes, where it fits.
abbrev pub add_cell : CString → ℕ → CString
add_cell tmp hz =
    let cell = (if ltb 0 (length tmp) then codes "," else []) ++ decimal_text hz in
    if ltb (length tmp + length cell) 32 then tmp ++ cell else tmp

module _ (bits : Bits) where
  abbrev pub rate_bit : ℤ → Option ℕ
  rate_bit (negsuc n) = none
  rate_bit (pos hz) =
      if hz == rate_44k1
      then some bits.bit_44100
      else if hz == rate_48k
      then some bits.bit_48000
      else if hz == rate_96k
      then some bits.bit_96000
      else none

  -- `mask & bit`, where no bit is 0.
  abbrev pub drives : ℕ → Option ℕ → Bool
  drives mask none = false
  drives mask (some place) = has mask place

  unfoldable pub best_drivable : ℕ → ℕ
  best_drivable mask =
      if has mask bits.bit_96000
      then rate_96k
      else if has mask bits.bit_48000
      then rate_48k
      else if has mask bits.bit_44100
      then rate_44k1
      else 0

  abbrev pub csv_loop : ℕ → CString → List ℕ → CString
  csv_loop mask tmp [] = tmp
  csv_loop mask tmp (hz ∷ rates) =
      csv_loop mask (if drives mask (rate_bit (pos hz)) then add_cell tmp hz else tmp) rates

  unfoldable pub drivable_csv : ℕ → ℕ → Csv
  drivable_csv mask buflen =
      let tmp = csv_loop mask [] (rate_44k1 ∷ rate_48k ∷ rate_96k ∷ []) in
      record { text = take (buflen - 1) tmp; len = length tmp }

  abbrev pub decide_master : ℤ → ℕ → Refuse
  decide_master hz mask =
      if not (is_closed hz)
      then not_closed
      else if not (drives mask (rate_bit hz))
      then not_drivable
      else nothing

  -- A slave refuses before the value is looked at.
  unfoldable pub cfg_decide : Role → ℤ → ℕ → Refuse
  cfg_decide slave hz mask = role_slave
  cfg_decide master hz mask = decide_master hz mask

abbrev pub usable_rate : Option ℤ → Parsed ℤ
usable_rate none = unusable
usable_rate (some hz) = found hz

unfoldable pub rate_prop_parse :
    {Float : Type 0} → (Float → Option ℤ) → CString → Props Float → Parsed ℤ
rate_prop_parse nearest key props =
    prop_parse key (λ v. usable_rate (value_pod_to_int nearest v)) props

-- ===== src/Settings/Tests.antt =====
-- A controller's writes to a door (src/reac_rate_cfg.c and src/reac_role_cfg.c).
use reac_pw.Prelude.{◌≡◌, ◌⊎◌, refl, none, some, List, [], ◌∷◌}
use reac_pw.Prelude.Int.{ℤ, pos}
use reac_pw.Prelude.Bytes.{codes}
use reac_pw.Settings.{Pod, text, integer, float, other, Parsed, params, prop_parse}
use reac_pw.Settings.First.{Entry, lookup, read_first, sent, prop_parse-sent}
use reac_pw.Settings.Rate.{master, slave, role_slave, Bits, cfg_decide, usable_rate}
use reac_pw.Settings.Decide.{Answers, cfg_decide-refusals}

abbrev places : Bits
places = record { bit_44100 = 0; bit_48000 = 1; bit_96000 = 2 }

abbrev read : Pod ⊥ → Parsed ℤ
read (text s) = usable_rate none
read (integer i) = usable_rate (some i)
read other = usable_rate none
read (float f) = elim f [ ]

-- A value that reads like the key, and behind it the rate.
abbrev writes : List (Entry ⊥)
writes =
    record { padding = other ∷ []; key = codes "reac.name"; value = text (codes "reac.cfg.rate") }
    ∷ record { padding = []; key = codes "reac.cfg.rate"; value = integer (pos 48_000) }
    ∷ []

prop_parse-sent_example :
    prop_parse (codes "reac.cfg.rate") read (params (sent writes))
    ≡ read_first (codes "reac.cfg.rate") read (lookup (codes "reac.cfg.rate") writes)
prop_parse-sent_example = prop_parse-sent (codes "reac.cfg.rate") read writes ((refl, tt), (tt, tt))

-- Drivable up to 48 kHz, and 96 kHz asked.
cfg_decide-refusals_example :
    ((master ≡ slave) × (cfg_decide places master (pos 96_000) 3 ≡ role_slave))
    ⊎ ((master ≡ master) × Answers places (pos 96_000) 3 (cfg_decide places master (pos 96_000) 3))
cfg_decide-refusals_example = cfg_decide-refusals places master (pos 96_000) 3

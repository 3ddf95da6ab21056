-- ===== src/Knobs/Tests.antt =====
-- Two settings of one knob on a command line (src/reac_knobs.c).
use reac_pw.Prelude.{ℕ, ◌≡◌, refl, true, Option, List, [], ◌∷◌}
use reac_pw.Prelude.Bytes.{CString, codes}
use reac_pw.Knobs.{knob_keys, knob_known, set_argv, Found, unset}
use reac_pw.Knobs.Argv.{accepts, sets, set_argv-accepts}

abbrev twice : List (CString × CString)
twice = (codes "REAC_RATE", codes "48000") ∷ (codes "REAC_RATE", codes "96000") ∷ []

abbrev no_layer : CString → Option CString → ℕ → Found
no_layer key name cap = record { layer = unset; value = [] }

set_argv-accepts_example :
    (set_argv (sets [] twice) (codes "REAC_TX") (codes "eth0")).1 ≡ accepts (codes "REAC_TX")
set_argv-accepts_example = set_argv-accepts twice (codes "REAC_TX") (codes "eth0")

rate-accepts : accepts (codes "REAC_RATE") ≡ true
unfolding knob_known knob_keys
rate-accepts = refl

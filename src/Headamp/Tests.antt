-- ===== src/Headamp/Tests.antt =====
-- Parameters with two head-amp cells, one of them past its range (src/reac_headamp_prop.c and
-- src/reac_headamp_state.c).
use reac_pw.Prelude.{ℕ, true, Option, none, some, List, [], ◌∷◌, All, arith}
use reac_pw.Prelude.Int.{pos}
use reac_pw.Prelude.Bytes.{codes}
use reac_pw.Headamp.{Facts, Asserted, asserted_init, with_cell}
use reac_pw.Headamp.Parse.{Pod, text, integer, boolean, prop_parse_result}
use reac_pw.Headamp.Said.{paired}
use reac_pw.Headamp.Accept.{IsNumbered, IsSettable, IsSound, children_of, prop_parse_result-IsSound}

abbrev small : Facts
small = record { max_ch = 40; params = 3; phantom = 0; pad = 1; sens = 2; sens_max = 55 }

abbrev no_float : ⊥ → Option ℕ
no_float f = none

abbrev sent : List (Pod small no_float)
sent =
    text (codes "reac.headamp.3.phantom")
    ∷ boolean true
    ∷ text (codes "reac.headamp.3.sens")
    ∷ integer (pos 99)
    ∷ []

small-IsNumbered : IsNumbered small
small-IsNumbered = record { phantom = omega arith; pad = omega arith; sens = omega arith }

prop_parse_result-IsSound_example :
    IsSound small no_float 4
      (paired small no_float none (children_of small no_float (some sent)))
      (prop_parse_result small no_float (some sent) 4)
    × All (IsSettable small asserted_init) (prop_parse_result small no_float (some sent) 4).out
prop_parse_result-IsSound_example =
    prop_parse_result-IsSound small no_float (some sent) 4 asserted_init small-IsNumbered

abbrev one_cell : Asserted
one_cell = with_cell small asserted_init 34 2 52

-- ===== src/RosterNode/Tests.antt =====
-- A roster of two segments that loses one (src/reac_roster_node.c).
use reac_pw.Prelude.{refl, true, List, [], ◌∷◌}
use reac_pw.Prelude.Int.{pos}
use reac_pw.Prelude.Bytes.{CString, codes}
use reac_pw.Roster.{Seg, seg}
use reac_pw.Roster.Words.{probing}
use reac_pw.RosterNode.{Met, on_roster_timer}
use reac_pw.RosterNode.Shown.{Shows, rows_of, started, after, after-Shows}

abbrev found_one : List (CString × Seg)
found_one = (codes "eth0", seg (codes "eth0") probing [] [] [] (pos 16) (pos 8)) ∷ []

abbrev found_two : List (CString × Seg)
found_two = (codes "eth1", seg (codes "eth1") probing [] [] [] (pos 40) (pos 40)) ∷ found_one

abbrev tick_two : Met
tick_two = record { on_graph = true; made = true; remade = true; room = true; found = found_two }

abbrev tick_one : Met
tick_one = record { on_graph = true; made = true; remade = true; room = true; found = found_one }

after-Shows_example :
    Shows (rows_of tick_one.found) (on_roster_timer (after started (tick_two ∷ [])) tick_one).node
after-Shows_example = after-Shows (tick_two ∷ []) tick_one refl

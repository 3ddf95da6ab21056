-- ===== src/DeclaredVlan/Tests.antt =====
-- Names and tables of VLAN segments (src/reac_declared_vlan.c).
use reac_pw.Prelude.{◌≡◌, refl, ◌≢◌, ◌↔◌, some, List, [], ◌∷◌, arith}
use reac_pw.Prelude.Bytes.{codes}
use reac_pw.DeclaredVlan.{ifnamsiz, split, last_dot, Declared, full, add}
use reac_pw.DeclaredVlan.Split.{IsVlanName, split_iff}
use reac_pw.DeclaredVlan.Table.{IsTable}

-- `eth0.7` names a VLAN, `eth0.4095` none.
seven : split (codes "eth0.7") ifnamsiz ≡ some (codes "eth0", 7)
unfolding split last_dot
seven = refl

split_iff_example :
    (split (codes "eth0.7") ifnamsiz ≡ some (codes "eth0", 7))
    ↔ IsVlanName (codes "eth0.7") ifnamsiz (codes "eth0") 7
split_iff_example = split_iff (codes "eth0.7") ifnamsiz (codes "eth0") 7

abbrev one : List Declared
one = record { parent = codes "eth0"; vid = 7 } ∷ []

one-IsTable : IsTable 1 one
one-IsTable = record { bounded = omega arith; once = (refl, tt) }

eight_added : (add one 2 (codes "eth0") 8).1 ≢ full
unfolding add
eight_added e = cc

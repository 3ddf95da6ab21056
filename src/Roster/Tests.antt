-- ===== src/Roster/Tests.antt =====
-- Rosters and their deltas on small inputs (src/reac_roster.c).
use reac_pw.Prelude.{inr, ◌≡◌, refl, ◌⊎◌, true, false, none, some, List, [], ◌∷◌, length, arith}
use reac_pw.Prelude.Bytes.{codes}
use reac_pw.Prelude.Int.{pos}
use reac_pw.Roster.{
  Seg, Roster, Kv, seg, add, delta, max_kvs, max_segments, changes, rows, removals, gone,
}
use reac_pw.Roster.Words.{tap, slave}
use reac_pw.Roster.Order.{IsOrdered, Inserted, Named, add-IsOrdered}
use reac_pw.Roster.Delta.{Props, IsCarried}
use reac_pw.Roster.Publish.{Sized}
use reac_pw.Roster.Emit.{delta-IsCarried, delta-fits}
use reac_pw.Roster.Delta.{applied}

abbrev tapped : Seg
tapped = seg (codes "eth1") tap [] [] [] (pos 0) (pos 0)

abbrev followed : Seg
followed = seg (codes "eth0") slave (codes "S-1608") [] [] (pos 16) (pos 8)

abbrev one_row : Roster
one_row = record { carried = []; want = tapped ∷ []; overflow = 0 }

one_row-IsOrdered : IsOrdered one_row.want
one_row-IsOrdered = record { ascending = (tt, tt); few = omega arith }

add-IsOrdered_example :
    IsOrdered (add one_row (codes "eth0") followed).0.want
    × (((add one_row (codes "eth0") followed).1 ≡ true)
          × Inserted one_row.want
              (codes "eth0")
              followed
              (add one_row (codes "eth0") followed).0.want
        ⊎ ((add one_row (codes "eth0") followed).1 ≡ false)
          × ((add one_row (codes "eth0") followed).0.want ≡ one_row.want)
          × ((length one_row.want ≡ max_segments) ⊎ Named (codes "eth0") one_row.want))
add-IsOrdered_example =
    add-IsOrdered one_row (codes "eth0") followed (omega arith) refl one_row-IsOrdered

abbrev nothing : Props
nothing k = none

nothing-IsCarried : IsCarried [] nothing
nothing-IsCarried = record { cells = λ i f l. refl; size = inr (refl, refl) }

delta-IsCarried_example :
    (out : List Kv) × (delta one_row max_kvs ≡ some out)
    × IsCarried one_row.want (applied out nothing)
    × Sized one_row nothing (applied out nothing)
delta-IsCarried_example =
    delta-IsCarried one_row nothing (omega arith) (omega arith) nothing-IsCarried

abbrev shrunk : Roster
shrunk = record { carried = tapped ∷ []; want = []; overflow = 0 }

abbrev shrunk_entries : List Kv
shrunk_entries = changes shrunk

delta-shrunk : delta shrunk max_kvs ≡ some shrunk_entries
unfolding changes rows gone removals
delta-shrunk = delta-fits shrunk max_kvs (omega arith)

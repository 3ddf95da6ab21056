-- ===== src/RosterNode.antt =====
-- src/reac_roster_node.c and the roster's timer in src/main.c: the node that carries the roster's
-- properties on the graph. PipeWire is behind the node: a new one carries no roster, the server merges
-- what an update sets, and whether a node could be made and is still on the graph are answers that each
-- tick is given. The lines for the journal, and the node's id in them, are left out.
pub mod Graph
pub mod Shown
mod Tests
use reac_pw.Prelude.{
  ℕ, suc, ◌+◌, ◌%◌, Bool, true, false, not, ◌&&◌, ◌||◌, Option, none, some, List, [], ◌∷◌, ◌==◌,
  if◌then◌else◌, length,
}
use reac_pw.Prelude.Bytes.{CString}
use reac_pw.Roster.{Seg, Roster, Kv, begin, add, removes, delta, max_kvs, shrank, forget, commit}
use reac_pw.Roster.Delta.{Props, applied}

-- A node's roster properties as the graph has them.
abbrev pub new_node : Props
new_node k = none

-- A delta that asks for a removal is refused whole, and so is one for which there is no memory.
unfoldable pub publish : Bool → Props → List Kv → Option Props
publish room c [] = none
publish room c (kv ∷ kvs) =
    if removes (kv ∷ kvs) then none else if not room then none else some (applied (kv ∷ kvs) c)

-- The timer's state: the node that is there, the roster, and the ticks without a node.
pub record Timer : Type 0 where
  pub node : Option Props
  pub roster : Roster
  pub ticks : ℕ

-- What a tick meets: is the node on the graph, can a node be made, can it be made again, is there
-- memory for what is published, and the rows of the tables under their names, in the order they are
-- collected.
pub record Met : Type 0 where
  pub on_graph : Bool
  pub made : Bool
  pub remade : Bool
  pub room : Bool
  pub found : List (CString × Seg)

abbrev pub add_rows : Roster → List (CString × Seg) → Roster
add_rows r [] = r
add_rows r ((name, s) ∷ found) = add_rows (add r name s).0 found

unfoldable pub collect : Roster → List (CString × Seg) → Roster
collect r found = add_rows (begin r) found

-- A node whose server went away is dropped, and what it carried forgotten.
abbrev pub checked : Timer → Bool → Option Props → Timer
checked t on_graph none = t
checked t on_graph (some c) =
    if on_graph then t else record t { node = none; roster = forget t.roster }

-- Every tenth tick without a node tries to make one.
abbrev pub made_node : Timer → Bool → Option Props → Timer
made_node t made (some c) = t
made_node t made none =
    if not (t.ticks % 10 == 0)
    then record t { ticks = t.ticks + 1 }
    else if made
    then record t { node = some new_node; ticks = t.ticks + 1 }
    else record t { ticks = t.ticks + 1 }

abbrev pub sent : Timer → Props → List Kv → Option Props → Timer
sent t c out none = t
sent t c out (some c') = record t { node = some c'; roster = commit t.roster }

abbrev pub published : Timer → Bool → Props → Option (List Kv) → Timer
published t room c none = t
published t room c (some []) = t
published t room c (some (kv ∷ kvs)) = sent t c (kv ∷ kvs) (publish room c (kv ∷ kvs))

abbrev pub update : Timer → Bool → Option Props → Timer
update t room none = t
update t room (some c) = published t room c (delta t.roster max_kvs)

-- A roster that shrank takes the node with it.
abbrev pub rebuilt : Timer → Bool → Timer
rebuilt t remade =
    if shrank t.roster
    then record t { node = if remade then some new_node else none; roster = forget t.roster }
    else t

abbrev pub collected : Timer → List (CString × Seg) → Timer
collected t found = record t { roster = collect t.roster found }

abbrev pub with_node : Timer → Met → Option Props → Timer
with_node t m none = t
with_node t m (some c) = let t' = rebuilt (collected t m.found) m.remade in update t' m.room t'.node

unfoldable pub on_roster_timer : Timer → Met → Timer
on_roster_timer t m =
    let a = checked t m.on_graph t.node in let b = made_node a m.made a.node in with_node b m b.node

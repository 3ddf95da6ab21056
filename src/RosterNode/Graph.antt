-- ===== src/RosterNode/Graph.antt =====
-- What the graph shows of the segments after each tick (src/reac_roster_node.c and the roster's timer
-- in src/main.c).
use reac_pw.Prelude.{
  suc, ◌+◌, ◌%◌, ◌≤◌, ◌≡◌, refl, ◌∙◌, inl, inr, Bool, true, false, not, Option, none, some, List,
  [], ◌∷◌, arith, leb, ◌==◌, if◌then◌else◌, length, Bool-cases, Option-cases,
}
use reac_pw.Prelude.Bytes.{CString}
use reac_pw.Prelude.Text.{strcmp-cases}
use reac_pw.Roster.{Seg, Roster, begin, add, placed, insert, max_segments, forget}
use reac_pw.Roster.Delta.{Props, IsCarried}
use reac_pw.RosterNode.{Timer, new_node, add_rows, collect, checked, made_node}

-- Between ticks the node carries what the roster believes it carries.
abbrev pub Held : Option Props → Roster → Type 0
Held none r = r.carried ≡ []
Held (some c) r = IsCarried r.carried c

pub record IsHeld (t : Timer) : Type 0 where
  pub bound : length t.roster.carried ≤ max_segments
  pub held : Held t.node t.roster

pub new_node-IsCarried : (ss : List Seg) → ss ≡ [] → IsCarried ss new_node
new_node-IsCarried [] e = record { cells = λ i f l. refl; size = inr (refl, refl) }
new_node-IsCarried (s ∷ ss) e = absurd cc

pub checked-IsHeld :
    (t : Timer) (on_graph : Bool) (node : Option Props)
    → t.node ≡ node
    → IsHeld t
    → IsHeld (checked t on_graph node)
unfolding forget
checked-IsHeld t on_graph none e h = h
checked-IsHeld t true (some c) e h = h
checked-IsHeld t false (some c) e h = record { bound = omega arith; held = refl }

pub Held-none : (node : Option Props) (r : Roster) → node ≡ none → Held node r → r.carried ≡ []
Held-none none r e h = h
Held-none (some c) r e h = absurd cc

pub made_node-pick :
    (t : Timer) (waits made : Bool)
    → t.roster.carried ≡ []
    → IsHeld t
    → IsHeld (
        if waits
        then record t { ticks = t.ticks + 1 }
        else if made
        then record t { node = some new_node; ticks = t.ticks + 1 }
        else record t { ticks = t.ticks + 1 })
made_node-pick t true made e h = record { bound = h.bound; held = h.held }
made_node-pick t false true e h = record {
  bound = h.bound;
  held = new_node-IsCarried t.roster.carried e;
}
made_node-pick t false false e h = record { bound = h.bound; held = h.held }

pub made_node-IsHeld :
    (t : Timer) (made : Bool) (node : Option Props)
    → t.node ≡ node
    → IsHeld t
    → IsHeld (made_node t made node)
made_node-IsHeld t made none e h =
    made_node-pick t (not (t.ticks % 10 == 0)) made (Held-none t.node t.roster e h.held) h
made_node-IsHeld t made (some c) e h = h

pub placed-carried : (r : Roster) (o : Option (List Seg)) → (placed r o).0.carried ≡ r.carried
placed-carried r none = refl
placed-carried r (some rs) = refl

pub add-carried : (r : Roster) (name : CString) (s : Seg) → (add r name s).0.carried ≡ r.carried
unfolding add
add-carried r name s = ground (arith, placed-carried r (insert r.want name s))

pub insert-length :
    (ts : List Seg) (name : CString) (s : Seg) (rs : List Seg)
    → insert ts name s ≡ some rs
    → length rs ≡ suc (length ts)
unfolding insert
insert-length [] name s rs e = let made : rs ≡ s ∷ [] = ground arith in rw made
insert-length (t ∷ ts) name s rs e = elim (strcmp-cases t.name name) [
  | inl lt ↦ elim (Option-cases (insert ts name s)) [
    | inl missed ↦ absurd (ground arith)
    | inr (r, m) ↦ let made : rs ≡ t ∷ r = ground arith in rw (made, insert-length ts name s r m)
  ]
  | inr (inl eq) ↦ absurd (ground arith)
  | inr (inr gt) ↦ let made : rs ≡ s ∷ t ∷ ts = ground arith in rw made
]

pub add-few :
    (r : Roster) (name : CString) (s : Seg)
    → length r.want ≤ max_segments
    → length (add r name s).0.want ≤ max_segments
unfolding add
add-few r name s few = elim (Bool-cases (leb max_segments (length r.want))) [
  | inl full ↦ ground arith
  | inr room ↦ elim (Option-cases (insert r.want name s)) [
    | inl missed ↦ ground arith
    | inr (rs, m) ↦ ground (arith, insert-length r.want name s rs m)
  ]
]

pub add_rows-few :
    (found : List (CString × Seg)) (r : Roster)
    → length r.want ≤ max_segments
    → (length (add_rows r found).want ≤ max_segments) × ((add_rows r found).carried ≡ r.carried)
add_rows-few [] r few = (few, refl)
add_rows-few ((name, s) ∷ found) r few =
    let (few', kept) = add_rows-few found (add r name s).0 (add-few r name s few) in
    (few', kept ∙ add-carried r name s)

pub collect-few :
    (found : List (CString × Seg)) (r : Roster)
    → (length (collect r found).want ≤ max_segments) × ((collect r found).carried ≡ r.carried)
unfolding collect begin
collect-few found r = add_rows-few found (begin r) (omega arith)

-- The rows of a tick do not depend on what the roster held before.
pub add-want :
    (r r' : Roster) (name : CString) (s : Seg)
    → r.want ≡ r'.want
    → (add r name s).0.want ≡ (add r' name s).0.want
unfolding add
add-want r r' name s e = elim (Bool-cases (leb max_segments (length r.want))) [
  | inl full ↦ ground arith
  | inr room ↦ elim (Option-cases (insert r.want name s)) [
    | inl missed ↦ ground arith
    | inr (rs, m) ↦ ground arith
  ]
]

pub add_rows-want :
    (found : List (CString × Seg)) (r r' : Roster)
    → r.want ≡ r'.want
    → (add_rows r found).want ≡ (add_rows r' found).want
add_rows-want [] r r' e = e
add_rows-want ((name, s) ∷ found) r r' e =
    add_rows-want found (add r name s).0 (add r' name s).0 (add-want r r' name s e)

pub collect-want :
    (found : List (CString × Seg)) (r r' : Roster)
    → (collect r found).want ≡ (collect r' found).want
unfolding collect begin
collect-want found r r' = add_rows-want found (begin r) (begin r') refl

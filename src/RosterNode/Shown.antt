-- ===== src/RosterNode/Shown.antt =====
-- The rows that the graph shows after a tick of the roster's timer in src/main.c.
use reac_pw.Prelude.{
  ◌≤◌, ◌≡◌, refl, sym, ap, ◌∙◌, inl, inr, Bool, true, false, Option, none, some, List, [], ◌∷◌,
  arith, length, if◌then◌else◌, Bool-cases,
}
use reac_pw.Prelude.Bytes.{CString}
use reac_pw.Roster.{
  Seg, Roster, Kv, init, removes, delta, max_kvs, max_segments, shrank, forget, commit,
}
use reac_pw.Roster.Delta.{Props, IsCarried, applied}
use reac_pw.Roster.Emit.{delta-IsCarried, delta-out, changes-removes, forget-shrank}
use reac_pw.RosterNode.{
  Timer, Met, new_node, publish, collect, checked, made_node, sent, published, update, rebuilt,
  collected, with_node, on_roster_timer,
}
use reac_pw.RosterNode.Graph.{
  Held, IsHeld, new_node-IsCarried, checked-IsHeld, made_node-IsHeld, collect-few, collect-want,
}

-- A node that is there shows these rows: every field of each, nothing of another, and their number,
-- which it may lack where there is no row.
abbrev pub Shows : List Seg → Option Props → Type 0
Shows rows none = Unit
Shows rows (some c) = IsCarried rows c

abbrev pub is_there : Option Props → Bool
is_there none = false
is_there (some c) = true

pub Held-same :
    (node : Option Props) (r r' : Roster) → r'.carried ≡ r.carried → Held node r → Held node r'
Held-same none r r' e h = e ∙ h
Held-same (some c) r r' e h = rw e h

pub collected-IsHeld :
    (t : Timer) (found : List (CString × Seg)) → IsHeld t → IsHeld (collected t found)
collected-IsHeld t found h =
    let kept = (collect-few found t.roster).1 in
    record {
      bound = rw kept h.bound;
      held = Held-same t.node t.roster (collect t.roster found) kept h.held;
    }

pub forgotten-IsHeld :
    (t : Timer) (remade : Bool)
    → IsHeld (record t { node = if remade then some new_node else none; roster = forget t.roster })
unfolding forget
forgotten-IsHeld t true = record { bound = omega arith; held = new_node-IsCarried [] refl }
forgotten-IsHeld t false = record { bound = omega arith; held = refl }

-- What is ready to publish: nothing left the roster, and the wanted rows fit it.
pub record IsReady (t : Timer) (want : List Seg) : Type 0 where
  pub is_held : IsHeld t
  pub stays : shrank t.roster ≡ false
  pub wants : t.roster.want ≡ want
  pub few : length t.roster.want ≤ max_segments

pub rebuilt-IsReady :
    (t : Timer) (remade : Bool)
    → IsHeld t
    → length t.roster.want ≤ max_segments
    → IsReady (rebuilt t remade) t.roster.want
unfolding forget
rebuilt-IsReady t remade h few = elim (Bool-cases (shrank t.roster)) [
  | inl e ↦ rw e (record {
    is_held = forgotten-IsHeld t remade;
    stays = forget-shrank t.roster;
    wants = refl;
    few = few;
  })
  | inr e ↦ rw e (record { is_held = h; stays = e; wants = refl; few = few })
]

pub publish-set :
    (room : Bool) (c : Props) (kv : Kv) (kvs : List Kv)
    → removes (kv ∷ kvs) ≡ false
    → publish room c (kv ∷ kvs) ≡ (if room then some (applied (kv ∷ kvs) c) else none)
unfolding publish
publish-set true c kv kvs e = rw e
publish-set false c kv kvs e = rw e

pub published-Shows :
    (t : Timer) (room : Bool) (c : Props) (out : List Kv) (want : List Seg)
    → t.node ≡ some c
    → IsReady t want
    → removes out ≡ false
    → IsCarried t.roster.want (applied out c)
    → IsHeld (published t room c (some out))
      × (room ≡ true → Shows want (published t room c (some out)).node)
unfolding commit
published-Shows t room c [] want e i r v =
    let v' : IsCarried want c = rw (sym i.wants) v in (i.is_held, λ m. rw e v')
published-Shows t true c (kv ∷ kvs) want e i r v =
    let v' : IsCarried want (applied (kv ∷ kvs) c) = rw (sym i.wants) v in
    rw (publish-set true c kv kvs r) (record { bound = i.few; held = v }, λ m. v')
published-Shows t false c (kv ∷ kvs) want e i r v =
    rw (publish-set false c kv kvs r) (i.is_held, λ m. absurd cc)

pub update-Shows :
    (t : Timer) (room : Bool) (node : Option Props) (want : List Seg)
    → t.node ≡ node
    → IsReady t want
    → IsHeld (update t room node) × (room ≡ true → Shows want (update t room node).node)
update-Shows t room none want e i = (i.is_held, λ m. rw e tt)
update-Shows t room (some c) want e i =
    let carried : IsCarried t.roster.carried c = rw e at i.is_held.held in
    let (out, d, v, size) = delta-IsCarried t.roster c i.few i.is_held.bound carried in
    let sets : removes out ≡ false =
      ap removes (delta-out t.roster max_kvs out d) ∙ changes-removes t.roster ∙ i.stays in
    rw d (published-Shows t room c out want e i sets v)

-- The rows found by a tick, in the roster's order.
abbrev pub rows_of : List (CString × Seg) → List Seg
rows_of found = (collect init found).want

pub with_node-Shows :
    (t : Timer) (m : Met) (node : Option Props)
    → t.node ≡ node
    → IsHeld t
    → IsHeld (with_node t m node)
      × (m.room ≡ true → Shows (rows_of m.found) (with_node t m node).node)
with_node-Shows t m none e h = (h, λ r. rw e tt)
with_node-Shows t m (some c) e h =
    let c' = collected t m.found in
    let ready =
      rebuilt-IsReady c' m.remade (collected-IsHeld t m.found h) (collect-few m.found t.roster).0 in
    let t' = rebuilt c' m.remade in
    let (held, shows) = update-Shows t' m.room t'.node c'.roster.want refl ready in
    (held, λ r. rw (sym (collect-want m.found t.roster init)) (shows r))

pub on_roster_timer-Shows :
    (t : Timer) (m : Met)
    → IsHeld t
    → IsHeld (on_roster_timer t m)
      × (m.room ≡ true → Shows (rows_of m.found) (on_roster_timer t m).node)
unfolding on_roster_timer
on_roster_timer-Shows t m h =
    let a = checked t m.on_graph t.node in
    let b = made_node a m.made a.node in
    with_node-Shows b m b.node refl
      (made_node-IsHeld a m.made a.node refl (checked-IsHeld t m.on_graph t.node refl h))

unfoldable pub started : Timer
started = record { node = none; roster = init; ticks = 0 }

abbrev pub after : Timer → List Met → Timer
after t [] = t
after t (m ∷ ms) = after (on_roster_timer t m) ms

pub after-IsHeld : (ms : List Met) (t : Timer) → IsHeld t → IsHeld (after t ms)
after-IsHeld [] t h = h
after-IsHeld (m ∷ ms) t h = after-IsHeld ms (on_roster_timer t m) (on_roster_timer-Shows t m h).0

pub started-IsHeld : IsHeld started
unfolding started init
started-IsHeld = record { bound = omega arith; held = refl }

-- Whatever happened before to the node, to its server, to the segments and to the memory for what was
-- published, a tick that has memory and leaves a node on the graph leaves it with the rows that this
-- tick found: every field of every row, no field of a row that left, and the number of rows, which
-- the node may lack where no row was found.
pub after-Shows :
    (before : List Met) (m : Met)
    → m.room ≡ true
    → Shows (rows_of m.found) (on_roster_timer (after started before) m).node
after-Shows before m r =
    (on_roster_timer-Shows (after started before) m (after-IsHeld before started started-IsHeld)).1
      r

pub sent-stays :
    (t : Timer) (c : Props) (out : List Kv) (o : Option Props)
    → is_there t.node ≡ true
    → is_there (sent t c out o).node ≡ true
sent-stays t c out none h = h
sent-stays t c out (some c') h = refl

pub published-stays :
    (t : Timer) (room : Bool) (c : Props) (o : Option (List Kv))
    → is_there t.node ≡ true
    → is_there (published t room c o).node ≡ true
published-stays t room c none h = h
published-stays t room c (some []) h = h
published-stays t room c (some (kv ∷ kvs)) h =
    sent-stays t c (kv ∷ kvs) (publish room c (kv ∷ kvs)) h

pub update-stays :
    (t : Timer) (room : Bool) (node : Option Props)
    → is_there t.node ≡ true
    → is_there (update t room node).node ≡ true
update-stays t room none h = h
update-stays t room (some c) h = published-stays t room c (delta t.roster max_kvs) h

pub rebuilt-stays : (t : Timer) → is_there t.node ≡ true → is_there (rebuilt t true).node ≡ true
rebuilt-stays t h = elim (Bool-cases (shrank t.roster)) [ inl e ↦ rw e | inr e ↦ rw e h ]

pub with_node-stays :
    (t : Timer) (m : Met) (node : Option Props)
    → m.remade ≡ true
    → is_there t.node ≡ true
    → is_there (with_node t m node).node ≡ true
with_node-stays t m none e h = h
with_node-stays t m (some c) e h =
    let c' = collected t m.found in
    rw e (update-stays (rebuilt c' true) m.room (rebuilt c' true).node (rebuilt-stays c' h))

pub made_node-kept :
    (t : Timer) (made : Bool) (node : Option Props)
    → t.node ≡ node
    → is_there node ≡ true
    → made_node t made node ≡ t
made_node-kept t made none e h = absurd cc
made_node-kept t made (some c) e h = refl

pub checked-kept : (t : Timer) (node : Option Props) → checked t true node ≡ t
checked-kept t none = refl
checked-kept t (some c) = refl

-- A node whose server is there, and which can be made anew where the roster shrinks, is there after the
-- tick as well.
pub on_roster_timer-stays :
    (t : Timer) (m : Met)
    → m.on_graph ≡ true
    → m.remade ≡ true
    → is_there t.node ≡ true
    → is_there (on_roster_timer t m).node ≡ true
unfolding on_roster_timer
on_roster_timer-stays t m g e h =
    rw (g, checked-kept t t.node, made_node-kept t m.made t.node refl h)
      (with_node-stays t m t.node e h)

-- ===== src/Roster/Order.antt =====
-- The wanted roster stays in byte order, within its bound, with no segment twice (src/reac_roster.c).
use reac_pw.Prelude.{
  ◌≤◌, ◌<◌, ◌≡◌, refl, ap, ◌⊎◌, inl, inr, true, false, none, some, List, [], ◌∷◌, ◌++◌, arith,
  length-append, length, All, Bool-cases, Option-cases, leb,
}
use Prim.Native.Nat.{Ordering}
use reac_pw.Prelude.Bytes.{CString}
use reac_pw.Prelude.Text.{strcmp, strcmp-cases, strcmp-gt, strcmp-lt_trans}
use reac_pw.Roster.{Seg, Roster, max_segments, insert, add}

-- Every row stands behind `name`.
abbrev pub Behind : CString → List Seg → Type 0
Behind name = All (λ t. strcmp name t.name ≡ Ordering.lt)

abbrev pub Ascending : List Seg → Type 0
Ascending [] = Unit
Ascending (s ∷ ss) = Behind s.name ss × Ascending ss

pub record IsOrdered (ss : List Seg) : Type 0 where
  pub ascending : Ascending ss
  pub few : length ss ≤ max_segments

abbrev pub Named : CString → List Seg → Type 0
Named name [] = ⊥
Named name (t ∷ ts) = (strcmp t.name name ≡ Ordering.eq) ⊎ Named name ts

Behind-trans :
    (a b : CString) (ts : List Seg) → strcmp a b ≡ Ordering.lt → Behind b ts → Behind a ts
Behind-trans a b [] h k = tt
Behind-trans a b (t ∷ ts) h k = (strcmp-lt_trans a b t.name h k.0, Behind-trans a b ts h k.1)

-- What `insert` makes of the rows: the new one stands between those before and those behind.
pub record Inserted (ts : List Seg) (name : CString) (s : Seg) (rs : List Seg) : Type 0 where
  pub before : List Seg
  pub after : List Seg
  pub were : ts ≡ before ++ after
  pub are : rs ≡ before ++ s ∷ after

insert-Inserted :
    (ts : List Seg) (name : CString) (s : Seg) (rs : List Seg)
    → insert ts name s ≡ some rs
    → Inserted ts name s rs
unfolding insert
insert-Inserted [] name s rs e = record { before = []; after = []; were = refl; are = ground arith }
insert-Inserted (t ∷ ts) name s rs e = elim (strcmp-cases t.name name) [
  | inl lt ↦ elim (Option-cases (insert ts name s)) [
    | inl missed ↦ absurd (ground arith)
    | inr (r, m) ↦
        let i = insert-Inserted ts name s r m in
        record {
          before = t ∷ i.before;
          after = i.after;
          were = ap (λ l. t ∷ l) i.were;
          are = ground (arith, i.are);
        }
  ]
  | inr (inl eq) ↦ absurd (ground arith)
  | inr (inr gt) ↦ record { before = []; after = t ∷ ts; were = refl; are = ground arith }
]

insert-none : (ts : List Seg) (name : CString) (s : Seg) → insert ts name s ≡ none → Named name ts
unfolding insert
insert-none [] name s e = absurd cc
insert-none (t ∷ ts) name s e = elim (strcmp-cases t.name name) [
  | inl lt ↦ elim (Option-cases (insert ts name s)) [
    | inl missed ↦ inr (insert-none ts name s missed)
    | inr (r, m) ↦ absurd (ground arith)
  ]
  | inr (inl eq) ↦ inl eq
  | inr (inr gt) ↦ absurd (ground arith)
]

-- The new row's name stands where byte order wants it.
insert-Ascending :
    (ts : List Seg) (name : CString) (s : Seg) (rs : List Seg)
    → s.name ≡ name
    → Ascending ts
    → insert ts name s ≡ some rs
    → Ascending rs × ((a : CString) → Behind a ts → strcmp a name ≡ Ordering.lt → Behind a rs)
unfolding insert
insert-Ascending [] name s rs n w e =
    let made : rs ≡ s ∷ [] = ground arith in rw (made, n) ((tt, tt), λ a b l. (l, tt))
insert-Ascending (t ∷ ts) name s rs n w e = elim (strcmp-cases t.name name) [
  | inl lt ↦ elim (Option-cases (insert ts name s)) [
    | inl missed ↦ absurd (ground arith)
    | inr (r, m) ↦
        let made : rs ≡ t ∷ r = ground arith in
        let i = insert-Ascending ts name s r n w.1 m in
        rw made ((i.1 t.name w.0 lt, i.0), λ a b l. (b.0, i.1 a b.1 l))
  ]
  | inr (inl eq) ↦ absurd (ground arith)
  | inr (inr gt) ↦
      let made : rs ≡ s ∷ t ∷ ts = ground arith in
      let below : strcmp s.name t.name ≡ Ordering.lt = rw n (strcmp-gt t.name name gt) in
      rw made (((below, Behind-trans s.name t.name ts below w.0), w), λ a b l. (rw n l, b))
]

-- The three outcomes of adding under a name that is not empty.
add-cases :
    (r : Roster) (name : CString) (s : Seg)
    → 0 < length name
    → ((max_segments ≤ length r.want)
        × ((add r name s).0.want ≡ r.want)
        × ((add r name s).1 ≡ false))
      ⊎ ((length r.want < max_segments)
          × (insert r.want name s ≡ none)
          × (add r name s ≡ (r, false)))
      ⊎ ((length r.want < max_segments)
          × ((rs : List Seg) × (insert r.want name s ≡ some rs)
              × (add r name s ≡ (record r { want = rs }, true))))
unfolding add
add-cases r name s l = elim (Option-cases (insert r.want name s)) [
  | inl missed ↦ ground arith
  | inr (rs, m) ↦ elim (Bool-cases (leb max_segments (length r.want))) [
    | inl full ↦ inl (ground arith)
    | inr room ↦ inr (inr (ground arith, (rs, m, ground arith)))
  ]
]

-- Adding a segment of an interface's length keeps the roster in byte order, within 32 rows and with
-- no segment twice. Either the row was added, between rows that stay as they were, or the roster
-- was full, or a row of that name stands there already; then the rows are unchanged.
pub add-IsOrdered :
    (r : Roster) (name : CString) (s : Seg)
    → 0 < length name
    → s.name ≡ name
    → IsOrdered r.want
    → IsOrdered (add r name s).0.want
      × (((add r name s).1 ≡ true) × Inserted r.want name s (add r name s).0.want
          ⊎ ((add r name s).1 ≡ false)
            × ((add r name s).0.want ≡ r.want)
            × ((length r.want ≡ max_segments) ⊎ Named name r.want))
add-IsOrdered r name s l n v = elim (add-cases r name s l) [
  | inl (full, same, missed) ↦ rw (same, missed) (v, inr (refl, refl, inl (omega (arith, v.few))))
  | inr (inl (room, there, e)) ↦ rw e (v, inr (refl, refl, inr (insert-none r.want name s there)))
  | inr (inr (room, (rs, m, e))) ↦
      let i = insert-Inserted r.want name s rs m in
      rw e (
        record {
          ascending = (insert-Ascending r.want name s rs n v.ascending m).0;
          few = rw i.are (
              omega (
                arith,
                ap length i.were,
                length-append i.before (s ∷ i.after),
                length-append i.before i.after,
              ));
        },
        inl (refl, i),
      )
]

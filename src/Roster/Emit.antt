-- ===== src/Roster/Emit.antt =====
-- The delta within its room, and when it removes (src/reac_roster.c).
use reac_pw.Prelude.{
  ℕ, zero, suc, ◌+◌, ◌*◌, ◌≤◌, ◌<◌, ◌≡◌, refl, sym, ap, ◌∙◌, ◌⊎◌, inl, inr, true, false, ◌||◌,
  Option, none, some, List, [], ◌∷◌, ◌++◌, arith, length, length-append, Bool-cases, leb, ltb, ◌==◌,
}
use mathlib.Core.List.{append-nil, append_assoc}
use reac_pw.Roster.{
  removes, Seg, Roster, Kv, fields, field_val, unchanged, row, removals, gone, rows, changes,
  max_kvs, max_segments, Emitted, emit, emit_all, delta, shrank, forget,
}
use reac_pw.Roster.Delta.{Props, applied, IsCarried}
use reac_pw.Roster.Publish.{changes-IsCarried, Sized, changes-Sized}

-- Emitting keeps every entry while there is room, and says so where there was none.
emit_all-fits :
    (max : ℕ) (kvs : List Kv) (e : Emitted)
    → e.n + length kvs ≤ max
    → ((emit_all max e kvs).out ≡ e.out ++ kvs) × ((emit_all max e kvs).over ≡ e.over)
unfolding emit
emit_all-fits max [] e l = (sym (append-nil e.out), refl)
emit_all-fits max (kv ∷ kvs) e l =
    let room : leb max e.n ≡ false = ground arith in
    let i =
      emit_all-fits max kvs (record e { out = e.out ++ kv ∷ []; n = e.n + 1 }) (omega arith) in
    let e' : emit max e kv ≡ record e { out = e.out ++ kv ∷ []; n = e.n + 1 } = rw room refl in
    (
      ap (λ d. (emit_all max d kvs).out) e' ∙ i.0 ∙ append_assoc e.out (kv ∷ []) kvs,
      ap (λ d. (emit_all max d kvs).over) e' ∙ i.1,
    )

emit_all-over :
    (max : ℕ) (kvs : List Kv) (e : Emitted)
    → (e.over ≡ true) ⊎ ((e.n ≤ max) × (max < e.n + length kvs))
    → (emit_all max e kvs).over ≡ true
unfolding emit
emit_all-over max [] e (inl o) = o
emit_all-over max [] e (inr o) = absurd (omega (arith, o.0, o.1))
emit_all-over max (kv ∷ kvs) e o = elim (Bool-cases (leb max e.n)) [
  | inl past ↦
      let e' : emit max e kv ≡ record e { over = true; n = e.n + 1 } = rw past refl in
      ap (λ d. (emit_all max d kvs).over) e'
      ∙ emit_all-over max kvs (record e { over = true; n = e.n + 1 }) (inl refl)
  | inr room ↦
      let e' : emit max e kv ≡ record e { out = e.out ++ kv ∷ []; n = e.n + 1 } = rw room refl in
      ap (λ d. (emit_all max d kvs).over) e'
      ∙ emit_all-over max kvs (record e { out = e.out ++ kv ∷ []; n = e.n + 1 }) (ground (arith, o))
]

row-length : (i : ℕ) (w : Seg) (p : Option Seg) (fs : List ℕ) → length (row i w p fs) ≤ length fs
unfolding row
row-length i w p [] = omega arith
row-length i w p (f ∷ fs) = elim (Bool-cases (unchanged p f (field_val w f))) [
  | inl same ↦ rw same (omega (arith, row-length i w p fs))
  | inr moved ↦ rw moved (omega (arith, row-length i w p fs))
]

removals-length : (i : ℕ) → length (removals i fields) ≡ 7
unfolding removals
removals-length i = refl

gone-length : (i : ℕ) (ps : List Seg) → length (gone i ps) ≡ length ps * 7
unfolding gone
gone-length i [] = omega arith
gone-length i (p ∷ ps) = omega (
  arith,
  length-append (removals i fields) (gone (suc i) ps),
  removals-length i,
  gone-length (suc i) ps,
)

rows-length :
    (i bound : ℕ) (ws ps : List Seg)
    → length ws ≤ bound
    → length ps ≤ bound
    → length (rows i ws ps) ≤ bound * 7
unfolding rows
rows-length i bound [] ps h k = omega (arith, gone-length i ps)
rows-length i zero (w ∷ ws) ps h k = absurd (omega arith)
rows-length i (suc bound) (w ∷ ws) [] h k = omega (
  arith,
  length-append (row i w none fields) (rows (suc i) ws []),
  row-length i w none fields,
  rows-length (suc i) bound ws [] (omega arith) (omega arith),
)
rows-length i (suc bound) (w ∷ ws) (p ∷ ps) h k = omega (
  arith,
  length-append (row i w (some p) fields) (rows (suc i) ws ps),
  row-length i w (some p) fields,
  rows-length (suc i) bound ws ps (omega arith) (omega arith),
)

changes-length :
    (r : Roster)
    → length r.want ≤ max_segments
    → length r.carried ≤ max_segments
    → length (changes r) ≤ max_kvs
unfolding changes
changes-length r h k = elim (Bool-cases (length r.want == length r.carried)) [
  | inl same ↦ rw same (omega (arith, rows-length 0 max_segments r.want r.carried h k))
  | inr moved ↦ rw moved (omega (arith, rows-length 0 max_segments r.want r.carried h k))
]

pub delta-fits : (r : Roster) (max : ℕ) → length (changes r) ≤ max → delta r max ≡ some (changes r)
unfolding delta
delta-fits r max l =
    let i =
      emit_all-fits max (changes r) (record { out = []; n = 0; over = false }) (omega arith) in
    rw (i.1, i.0) refl

delta-over : (r : Roster) (max : ℕ) → max < length (changes r) → delta r max ≡ none
unfolding delta
delta-over r max l =
    let o =
      emit_all-over max (changes r) (record { out = []; n = 0; over = false })
        (inr (omega arith, omega arith)) in
    rw o refl

-- For rosters of at most 32 rows, a delta into REAC_ROSTER_KV_MAX entries always fits, and a client
-- that holds the carried roster's properties and applies its entries in their order then holds the
-- wanted roster's: every field of every row, no field of a row that left, and the new size, which only
-- an empty roster lacks that was empty before and whose client had no size.
pub delta-IsCarried :
    (r : Roster) (c : Props)
    → length r.want ≤ max_segments
    → length r.carried ≤ max_segments
    → IsCarried r.carried c
    → (out : List Kv) × (delta r max_kvs ≡ some out)
      × IsCarried r.want (applied out c)
      × Sized r c (applied out c)
delta-IsCarried r c h k v = (
  changes r,
  delta-fits r max_kvs (changes-length r h k),
  changes-IsCarried r c v,
  changes-Sized r c v,
)

removes-append : (a b : List Kv) → removes (a ++ b) ≡ (removes a || removes b)
removes-append [] b = refl
removes-append (kv ∷ a) b = ground (arith, removes-append a b)

row-sets_only : (i : ℕ) (w : Seg) (p : Option Seg) (fs : List ℕ) → removes (row i w p fs) ≡ false
unfolding row
row-sets_only i w p [] = refl
row-sets_only i w p (f ∷ fs) = elim (Bool-cases (unchanged p f (field_val w f))) [
  | inl same ↦ rw same (row-sets_only i w p fs)
  | inr moved ↦ rw moved (row-sets_only i w p fs)
]

rows-removes : (i : ℕ) (ws ps : List Seg) → removes (rows i ws ps) ≡ ltb (length ws) (length ps)
unfolding rows gone removals
rows-removes i [] [] = refl
rows-removes i [] (p ∷ ps) = ground arith
rows-removes i (w ∷ ws) [] =
    removes-append (row i w none fields) (rows (suc i) ws [])
    ∙ rw (row-sets_only i w none fields) (rows-removes (suc i) ws [] ∙ ground arith)
rows-removes i (w ∷ ws) (p ∷ ps) =
    removes-append (row i w (some p) fields) (rows (suc i) ws ps)
    ∙ rw (row-sets_only i w (some p) fields) (rows-removes (suc i) ws ps ∙ ground arith)

pub changes-removes : (r : Roster) → removes (changes r) ≡ shrank r
unfolding changes shrank
changes-removes r = elim (Bool-cases (length r.want == length r.carried)) [
  | inl same ↦ rw same (rows-removes 0 r.want r.carried)
  | inr moved ↦ rw moved (rows-removes 0 r.want r.carried)
]

pub delta-out : (r : Roster) (max : ℕ) (out : List Kv) → delta r max ≡ some out → out ≡ changes r
delta-out r max out e = elim (Bool-cases (leb (length (changes r)) max)) [
  | inl fits ↦ let d = delta-fits r max (ground arith) in cc
  | inr past ↦ let d = delta-over r max (ground arith) in absurd cc
]

pub forget-shrank : (r : Roster) → shrank (forget r) ≡ false
unfolding shrank forget
forget-shrank r = ground arith

-- The predicate that is asked before the delta is exact: a delta that fits removes a property exactly
-- where the wanted roster is shorter than the carried one, and after `forget` it removes none.
pub delta-removes :
    (r : Roster) (max : ℕ) (out : List Kv)
    → delta r max ≡ some out
    → (removes out ≡ shrank r)
      × ((out' : List Kv) → delta (forget r) max ≡ some out' → removes out' ≡ false)
delta-removes r max out e = (
  rw (delta-out r max out e) (changes-removes r),
  λ out' e'. rw (delta-out (forget r) max out' e') (changes-removes (forget r) ∙ forget-shrank r),
)

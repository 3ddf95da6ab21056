-- ===== src/Roster/Publish.antt =====
-- What a client reads after each delta, and when a delta removes (src/reac_roster.c).
use reac_pw.Prelude.{
  ℕ, zero, suc, ◌+◌, ◌≤◌, ◌<◌, ◌≡◌, refl, sym, ap, ◌∙◌, ◌≢◌, ◌⊎◌, inl, inr, true, false, Option,
  none, some, List, [], ◌∷◌, ◌++◌, arith, length, Bool-cases, ◌==◌,
}
use reac_pw.Prelude.Bytes.{CString}
use reac_pw.Prelude.Text.{decimal_text}
use reac_pw.Roster.{
  Seg, Roster, Kv, Key, count, field, fields, field_val, set, row, removals, gone, rows, changes,
}
use reac_pw.Roster.Delta.{
  Props, key_eq, put, applied, get_elem?, value, IsCarried, has, applied-append, Misses,
  applied-Misses, rows-Misses, row-Misses, removals-Misses, gone-Misses, row-sets,
}

key_eq-row : (i j f g : ℕ) → i ≢ j → key_eq (field i f) (field j g) ≡ false
key_eq-row i j f g h = ground arith

removals-clear :
    (i : ℕ) (c : Props) (g : ℕ) → g < 7 → applied (removals i fields) c (field i g) ≡ none
unfolding removals
removals-clear i c g l = ground arith

-- The entries of row `i` settle its cells; those of later rows do not touch them.
front : (a b : List Kv) (c : Props) (k : Key) → Misses k b → applied (a ++ b) c k ≡ applied a c k
front a b c k m = ap (λ d. d k) (applied-append a b c) ∙ applied-Misses k b (applied a c) m

-- The cells of later rows, once row `i` is settled, are those it started with.
module _ (i g : ℕ) (a : List Kv) (c : Props) (ps : List Seg)
    (h : (m : ℕ) → c (field (i + suc m) g) ≡ value (get_elem? ps m) g)
    (w : (m : ℕ) → Misses (field (i + suc m) g) a) where
  later : (m : ℕ) → applied a c (field (suc i + m) g) ≡ value (get_elem? ps m) g
  later m =
      let e : suc i + m ≡ i + suc m = omega arith in
      ap (λ n. applied a c (field n g)) e ∙ applied-Misses (field (i + suc m) g) a c (w m) ∙ h m

back :
    (i n g : ℕ) (a b : List Kv) (c : Props) (v : Option CString)
    → applied b (applied a c) (field (suc i + n) g) ≡ v
    → applied (a ++ b) c (field (i + suc n) g) ≡ v
back i n g a b c v e =
    let q : i + suc n ≡ suc i + n = omega arith in
    ap (λ d. d (field (i + suc n) g)) (applied-append a b c)
    ∙ ap (λ m. applied b (applied a c) (field m g)) q
    ∙ e

key_eq-later : (i m f g : ℕ) → suc i ≤ m → key_eq (field m f) (field (i + 0) g) ≡ false
key_eq-later i m f g l = ground arith

key_eq-earlier : (i m f g : ℕ) → key_eq (field i f) (field (i + suc m) g) ≡ false
key_eq-earlier i m f g = ground arith

gone-clear :
    (i : ℕ) (ps : List Seg) (c : Props) (n g : ℕ)
    → g < 7
    → ((m : ℕ) → c (field (i + m) g) ≡ value (get_elem? ps m) g)
    → applied (gone i ps) c (field (i + n) g) ≡ none
unfolding gone
gone-clear i [] c n g l h = h n
gone-clear i (p ∷ ps) c zero g l h =
    front (removals i fields) (gone (suc i) ps) c (field (i + 0) g)
      (gone-Misses (field (i + 0) g) (suc i) ps (λ m f. key_eq-later i m f g))
    ∙ (let q : i + 0 ≡ i = omega arith in
        ap (λ m. applied (removals i fields) c (field m g)) q ∙ removals-clear i c g l)
gone-clear i (p ∷ ps) c (suc n) g l h = back i n g (removals i fields) (gone (suc i) ps) c none (
    gone-clear (suc i) ps (applied (removals i fields) c) n g l (
      later i g (removals i fields) c ps (λ m. h (suc m))
        (λ m. removals-Misses (field (i + suc m) g) i fields (λ f. key_eq-earlier i m f g))))

has-fields : (g : ℕ) → g < 7 → has fields g ≡ true
has-fields g l = ground arith

row-settles :
    (i : ℕ) (w : Seg) (p : Option Seg) (c : Props) (g : ℕ) (rest : List Kv)
    → g < 7
    → c (field (i + 0) g) ≡ value p g
    → Misses (field (i + 0) g) rest
    → applied (row i w p fields ++ rest) c (field (i + 0) g) ≡ some (field_val w g)
row-settles i w p c g rest l e m =
    let q : i + 0 ≡ i = omega arith in
    front (row i w p fields) rest c (field (i + 0) g) m
    ∙ ap (λ n. applied (row i w p fields) c (field n g)) q
    ∙ row-sets i w p fields c g (ap (λ n. c (field n g)) (sym q) ∙ e) (has-fields g l)

rows-cells :
    (i : ℕ) (ws ps : List Seg) (c : Props) (n g : ℕ)
    → g < 7
    → ((m : ℕ) → c (field (i + m) g) ≡ value (get_elem? ps m) g)
    → applied (rows i ws ps) c (field (i + n) g) ≡ value (get_elem? ws n) g
unfolding rows
rows-cells i [] ps c n g l h = gone-clear i ps c n g l h
rows-cells i (w ∷ ws) [] c zero g l h =
    row-settles i w none c g (rows (suc i) ws []) l (h 0)
      (rows-Misses (field (i + 0) g) (suc i) ws [] (λ m f. key_eq-later i m f g))
rows-cells i (w ∷ ws) [] c (suc n) g l h =
    back i n g (row i w none fields) (rows (suc i) ws []) c (value (get_elem? ws n) g) (
      rows-cells (suc i) ws [] (applied (row i w none fields) c) n g l (
        later i g (row i w none fields) c [] (λ m. h (suc m))
          (λ m. row-Misses (field (i + suc m) g) i w none fields (λ f. key_eq-earlier i m f g))))
rows-cells i (w ∷ ws) (p ∷ ps) c zero g l h =
    row-settles i w (some p) c g (rows (suc i) ws ps) l (h 0)
      (rows-Misses (field (i + 0) g) (suc i) ws ps (λ m f. key_eq-later i m f g))
rows-cells i (w ∷ ws) (p ∷ ps) c (suc n) g l h =
    back i n g (row i w (some p) fields) (rows (suc i) ws ps) c (value (get_elem? ws n) g) (
      rows-cells (suc i) ws ps (applied (row i w (some p) fields) c) n g l (
        later i g (row i w (some p) fields) c ps (λ m. h (suc m))
          (λ m.
            row-Misses (field (i + suc m) g) i w (some p) fields (λ f. key_eq-earlier i m f g))))

rows-from_start :
    (ws ps : List Seg) (c : Props) (n g : ℕ)
    → g < 7
    → ((m : ℕ) → c (field m g) ≡ value (get_elem? ps m) g)
    → applied (rows 0 ws ps) c (field n g) ≡ value (get_elem? ws n) g
rows-from_start ws ps c n g l h =
    let here : 0 + n ≡ n = omega arith in
    ap (λ m. applied (rows 0 ws ps) c (field m g)) (sym here)
    ∙ rows-cells 0 ws ps c n g l
        (λ m. let there : 0 + m ≡ m = omega arith in ap (λ k. c (field k g)) there ∙ h m)

no_rows : (ss : List Seg) → length ss ≡ 0 → ss ≡ []
no_rows [] e = refl
no_rows (s ∷ ss) e = absurd (omega arith)

same_size :
    (r : Roster) (c : Props)
    → length r.want ≡ length r.carried
    → applied (rows 0 r.want r.carried) c count ≡ c count
    → (c count ≡ some (decimal_text (length r.carried))) ⊎ ((r.carried ≡ []) × (c count ≡ none))
    → (applied (rows 0 r.want r.carried) c count ≡ some (decimal_text (length r.want)))
      ⊎ ((r.want ≡ []) × (applied (rows 0 r.want r.carried) c count ≡ none))
same_size r c q m (inl e) = inl (m ∙ rw q e)
same_size r c q m (inr (e, n)) = inr (no_rows r.want (q ∙ ap length e), m ∙ n)

-- The delta's entries, in their order, take a client from the carried roster to the wanted one.
pub changes-IsCarried :
    (r : Roster) (c : Props) → IsCarried r.carried c → IsCarried r.want (applied (changes r) c)
unfolding changes
changes-IsCarried r c v = elim (Bool-cases (length r.want == length r.carried)) [
  | inl same ↦
      let q : length r.want ≡ length r.carried = ground arith in
      rw same (record {
        cells = λ i f l. rows-from_start r.want r.carried c i f l (λ m. v.cells m f l);
        size =
            same_size r c q
              (applied-Misses count (rows 0 r.want r.carried) c
                (rows-Misses count 0 r.want r.carried (λ m f l. refl)))
              v.size;
      })
  | inr moved ↦
      let c' = put c (set count (decimal_text (length r.want))) in
      rw moved (record {
        cells = λ i f l. rows-from_start r.want r.carried c' i f l (λ m. v.cells m f l);
        size = inl (
            applied-Misses count (rows 0 r.want r.carried) c'
              (rows-Misses count 0 r.want r.carried (λ m f l. refl)));
      })
]

-- The size that a delta leaves: the wanted one, or none where there was none and both rosters are empty.
abbrev pub Sized : Roster → Props → Props → Type 0
Sized r c c' =
    (c' count ≡ some (decimal_text (length r.want)))
    ⊎ ((c count ≡ none) × (r.carried ≡ []) × (r.want ≡ []))

pub changes-Sized :
    (r : Roster) (c : Props) → IsCarried r.carried c → Sized r c (applied (changes r) c)
unfolding changes
changes-Sized r c v = elim (Bool-cases (length r.want == length r.carried)) [
  | inl same ↦
      let q : length r.want ≡ length r.carried = ground arith in
      let m =
        applied-Misses count (rows 0 r.want r.carried) c
          (rows-Misses count 0 r.want r.carried (λ m f l. refl)) in
      rw same (elim v.size [
        | inl e ↦ inl (m ∙ rw q e)
        | inr (e, n) ↦ inr (n, e, no_rows r.want (q ∙ ap length e))
      ])
  | inr moved ↦
      let c' = put c (set count (decimal_text (length r.want))) in
      rw moved (
        inl (
          applied-Misses count (rows 0 r.want r.carried) c'
            (rows-Misses count 0 r.want r.carried (λ m f l. refl))))
]

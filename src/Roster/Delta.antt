-- ===== src/Roster/Delta.antt =====
-- The delta that moves a client's properties from the carried roster to the wanted one
-- (src/reac_roster.c).
use reac_pw.Prelude.{
  ℕ, zero, suc, ◌≤◌, ◌<◌, ◌≡◌, refl, sym, ap, ◌∙◌, ◌⊎◌, inl, inr, Bool, true, false, ◌&&◌, ◌||◌,
  Option, none, some, List, [], ◌∷◌, ◌++◌, arith, length, Bool-cases, if◌then◌else◌, ◌==◌,
}
use reac_pw.Prelude.Bytes.{CString, str_eq→eq}
use reac_pw.Prelude.Text.{decimal_text}
use reac_pw.Roster.{
  Seg, Kv, Key, count, field, fields, field_val, set, unchanged, row, removals, gone, rows,
}

-- What a client that keeps the node's properties knows: the value under each key.
abbrev pub Props : Type 0
Props = Key → Option CString

abbrev pub key_eq : Key → Key → Bool
key_eq count count = true
key_eq count (field j g) = false
key_eq (field i f) count = false
key_eq (field i f) (field j g) = i == j && f == g

abbrev pub put : Props → Kv → Props
put c kv k = if key_eq kv.key k then (if kv.remove then none else some kv.val) else c k

abbrev pub applied : List Kv → Props → Props
applied [] c = c
applied (kv ∷ kvs) c = applied kvs (put c kv)

abbrev pub get_elem? : List Seg → ℕ → Option Seg
get_elem? [] i = none
get_elem? (s ∷ ss) zero = some s
get_elem? (s ∷ ss) (suc i) = get_elem? ss i

abbrev pub value : Option Seg → ℕ → Option CString
value none f = none
value (some s) f = some (field_val s f)

-- The properties that carry a roster: its fields and its size, which an empty roster may also lack.
pub record IsCarried (ss : List Seg) (c : Props) : Type 0 where
  pub cells : (i f : ℕ) → f < 7 → c (field i f) ≡ value (get_elem? ss i) f
  pub size : (c count ≡ some (decimal_text (length ss))) ⊎ ((ss ≡ []) × (c count ≡ none))

abbrev pub has : List ℕ → ℕ → Bool
has [] g = false
has (f ∷ fs) g = f == g || has fs g

pub applied-append : (a b : List Kv) (c : Props) → applied (a ++ b) c ≡ applied b (applied a c)
applied-append [] b c = refl
applied-append (kv ∷ a) b c = applied-append a b (put c kv)

-- No entry has the key `k`.
abbrev pub Misses : Key → List Kv → Type 0
Misses k [] = Unit
Misses k (kv ∷ kvs) = (key_eq kv.key k ≡ false) × Misses k kvs

pub applied-Misses : (k : Key) (kvs : List Kv) (c : Props) → Misses k kvs → applied kvs c k ≡ c k
applied-Misses k [] c m = refl
applied-Misses k (kv ∷ kvs) c m = rw (applied-Misses k kvs (put c kv) m.1, m.0) refl

pub Misses-append : (k : Key) (a b : List Kv) → Misses k a → Misses k b → Misses k (a ++ b)
Misses-append k [] b m n = n
Misses-append k (kv ∷ a) b m n = (m.0, Misses-append k a b m.1 n)

pub row-Misses :
    (k : Key) (i : ℕ) (w : Seg) (p : Option Seg) (fs : List ℕ)
    → ((f : ℕ) → key_eq (field i f) k ≡ false)
    → Misses k (row i w p fs)
unfolding row
row-Misses k i w p [] h = tt
row-Misses k i w p (f ∷ fs) h =
    let rest = row-Misses k i w p fs h in
    elim (Bool-cases (unchanged p f (field_val w f))) [
      | inl same ↦ rw same rest
      | inr moved ↦ rw moved (h f, rest)
    ]

pub removals-Misses :
    (k : Key) (i : ℕ) (fs : List ℕ)
    → ((f : ℕ) → key_eq (field i f) k ≡ false)
    → Misses k (removals i fs)
unfolding removals
removals-Misses k i [] h = tt
removals-Misses k i (f ∷ fs) h = (h f, removals-Misses k i fs h)

pub gone-Misses :
    (k : Key) (i : ℕ) (ps : List Seg)
    → ((m f : ℕ) → i ≤ m → key_eq (field m f) k ≡ false)
    → Misses k (gone i ps)
unfolding gone
gone-Misses k i [] h = tt
gone-Misses k i (p ∷ ps) h =
    Misses-append k (removals i fields) (gone (suc i) ps)
      (removals-Misses k i fields (λ f. h i f (omega arith)))
      (gone-Misses k (suc i) ps (λ m f l. h m f (omega arith)))

pub rows-Misses :
    (k : Key) (i : ℕ) (ws ps : List Seg)
    → ((m f : ℕ) → i ≤ m → key_eq (field m f) k ≡ false)
    → Misses k (rows i ws ps)
unfolding rows
rows-Misses k i [] ps h = gone-Misses k i ps h
rows-Misses k i (w ∷ ws) [] h =
    Misses-append k (row i w none fields) (rows (suc i) ws [])
      (row-Misses k i w none fields (λ f. h i f (omega arith)))
      (rows-Misses k (suc i) ws [] (λ m f l. h m f (omega arith)))
rows-Misses k i (w ∷ ws) (p ∷ ps) h =
    Misses-append k (row i w (some p) fields) (rows (suc i) ws ps)
      (row-Misses k i w (some p) fields (λ f. h i f (omega arith)))
      (rows-Misses k (suc i) ws ps (λ m f l. h m f (omega arith)))

-- A row leaves a cell that has its wanted value alone, and brings every other one to it.
row-holds :
    (i : ℕ) (w : Seg) (p : Option Seg) (fs : List ℕ) (c : Props) (g : ℕ)
    → c (field i g) ≡ some (field_val w g)
    → applied (row i w p fs) c (field i g) ≡ some (field_val w g)
unfolding row
row-holds i w p [] c g e = e
row-holds i w p (f ∷ fs) c g e = elim (Bool-cases (unchanged p f (field_val w f))) [
  | inl same ↦ rw same (row-holds i w p fs c g e)
  | inr moved ↦
      rw moved (row-holds i w p fs (put c (set (field i f) (field_val w f))) g (ground arith))
]

pub row-sets :
    (i : ℕ) (w : Seg) (p : Option Seg) (fs : List ℕ) (c : Props) (g : ℕ)
    → c (field i g) ≡ value p g
    → has fs g ≡ true
    → applied (row i w p fs) c (field i g) ≡ some (field_val w g)
unfolding row
row-sets i w p [] c g e h = absurd cc
row-sets i w p (f ∷ fs) c g e h = elim (Bool-cases (unchanged p f (field_val w f))) [
  | inl same ↦ elim (Bool-cases (f == g)) [
    | inl here ↦
        let q : f ≡ g = ground arith in
        rw same (row-holds i w p fs c g (e ∙ stands p g (rw q at same)))
    | inr away ↦ rw same (row-sets i w p fs c g e (ground arith))
  ]
  | inr moved ↦ elim (Bool-cases (f == g)) [
    | inl here ↦
        let q : f ≡ g = ground arith in
        rw moved (row-holds i w p fs (put c (set (field i f) (field_val w f))) g (ground arith))
    | inr away ↦ rw moved (
        row-sets i w p fs (put c (set (field i f) (field_val w f))) g (ground arith) (ground arith))
  ]
]
  where
    stands :
        (p' : Option Seg) (g' : ℕ)
        → unchanged p' g' (field_val w g') ≡ true
        → value p' g' ≡ some (field_val w g')
    stands none g' u = absurd cc
    stands (some s) g' u = ap some (sym (str_eq→eq (field_val w g') (field_val s g') u))

-- ===== src/Segconf/Load/Names.antt =====
-- The names of the drop-ins, told apart from what else a directory holds (src/reac_segconf.c).
use mathlib.Core.List.{Perm}
use mathlib.Core.List.Perm
use mathlib.Core.List.{append-nil, append_assoc}
use reac_pw.Prelude.{
  ℕ, zero, suc, ◌+◌, ◌-◌, ◌≤◌, ◌<◌, ◌≡◌, ◌≢◌, refl, sym, ap, ◌∙◌, inl, inr, true, false, ◌&&◌,
  Option, none, some, List, [], ◌∷◌, ◌++◌, arith, length, length-append, length-take, take-drop,
  take, drop, leb, ◌==◌, Bool-cases,
}
use reac_pw.Prelude.Words.{u32}
use reac_pw.Prelude.Bytes.{CString, codes, str_eq, str_eq→eq}
use reac_pw.Prelude.Text.{strcmp-cases}
use reac_pw.Segconf.Load.{max_files, is_dropin, prints, collect, place, sort}
use reac_pw.Segconf.Load.Order.{Ordered, names_in, names_in-Ordered}

-- A drop-in's name: something, then ".conf", not hidden, and short enough for a label.
pub record IsDropIn (name : CString) : Type 0 where
  pub stem : CString
  pub ends : name ≡ stem ++ codes ".conf"
  pub named : 0 < length stem
  pub shown : (rest : CString) → name ≢ b'.' ∷ rest
  pub short : length name + 16 < 96

-- The drop-ins among a directory's names, in the directory's order.
pub data DropIns : List CString → List CString → Type 0 where
  nothing_more : DropIns [] []
  takes :
      {name : CString} {entries names : List CString}
      → IsDropIn name
      → DropIns entries names
      → DropIns (name ∷ entries) (name ∷ names)
  skips :
      {name : CString} {entries names : List CString}
      → ¬ IsDropIn name
      → DropIns entries names
      → DropIns (name ∷ entries) names

take-nil : (n : ℕ) → take {A = CString} n [] ≡ []
take-nil zero = refl
take-nil (suc n) = refl

drop-append : (xs ys : CString) → drop (length xs) (xs ++ ys) ≡ ys
drop-append [] ys = refl
drop-append (x ∷ xs) ys = drop-append xs ys

ends_in :
    (stem name : CString)
    → name ≡ stem ++ codes ".conf"
    → str_eq (drop (length name - 5) name) (codes ".conf") ≡ true
ends_in stem name e =
    let l : length name - 5 ≡ length stem =
      ap (λ n. length n - 5) e ∙ omega (arith, length-append stem (codes ".conf")) in
    rw (l, e) (rw (drop-append stem (codes ".conf")) refl)

stem_of :
    (name : CString)
    → str_eq (drop (length name - 5) name) (codes ".conf") ≡ true
    → name ≡ take (length name - 5) name ++ codes ".conf"
stem_of name e =
    sym (take-drop (length name - 5) name)
    ∙ ap (λ t. take (length name - 5) name ++ t)
        (str_eq→eq (drop (length name - 5) name) (codes ".conf") e)

cons_head : {a b : ℕ} {xs ys : CString} → a ∷ xs ≡ b ∷ ys → a ≡ b
cons_head e = cc

ends_nil : (stem : CString) → [] ≡ stem ++ codes ".conf" → ⊥
ends_nil [] e = absurd cc
ends_nil (c ∷ stem) e = absurd cc

is_dropin_sound : (name : CString) → is_dropin name ≡ true → prints name ≡ true → IsDropIn name
is_dropin_sound [] e p = absurd cc
is_dropin_sound (b ∷ name) e p = record {
  stem = take (length (b ∷ name) - 5) (b ∷ name);
  ends = stem_of (b ∷ name) (ground (arith, e));
  named = omega (arith, length-take (length (b ∷ name) - 5) (b ∷ name), long);
  shown = shown;
  short = ground arith;
}
  where
    long : 6 ≤ length (b ∷ name)
    long = ground (arith, e)

    shown : (rest : CString) → b ∷ name ≢ b'.' ∷ rest
    shown rest h =
        let dot : (b == b'.') ≡ true = rw (cons_head h) refl in absurd (ground (arith, e, dot))

is_dropin_complete : (name : CString) → IsDropIn name → (is_dropin name && prints name) ≡ true
is_dropin_complete [] d = absurd (let n = d.named in let f = ends_nil d.stem d.ends in f)
is_dropin_complete (b ∷ name) d =
    let more = length-append d.stem (codes ".conf") in
    let whole : length (b ∷ name) ≡ length (d.stem ++ codes ".conf") = ap length d.ends in
    let named = d.named in
    let short = d.short in
    let long : leb 6 (length (b ∷ name)) ≡ true = ground (arith, whole, more) in
    let open_name : (b == b'.') ≡ false = dot_free (d.shown name) in
    let fits : prints (b ∷ name) ≡ true = ground (arith, short) in
    rw (open_name, long, ends_in d.stem (b ∷ name) d.ends, fits) refl
  where
    dot_free : b ∷ name ≢ b'.' ∷ name → (b == b'.') ≡ false
    dot_free n = elim (Bool-cases (b == b'.')) [
      | inl e ↦ absurd (n (ap (λ c. c ∷ name) (ground (arith, e))))
      | inr e ↦ e
    ]

place-Perm : (x : CString) (xs : List CString) → Perm (x ∷ xs) (place x xs)
place-Perm x [] = Perm.rfl
place-Perm x (y ∷ ys) = elim (strcmp-cases x y) [
  | inl lt ↦ rw (place, lt) Perm.rfl
  | inr (inl eq) ↦ rw (place, eq) Perm.rfl
  | inr (inr gt) ↦ rw (place, gt) (Perm.trans (Perm.swap y x ys) (Perm.cons y (place-Perm x ys)))
]

sort-Perm : (xs : List CString) → Perm xs (sort xs)
unfolding sort
sort-Perm [] = Perm.rfl
sort-Perm (x ∷ xs) = Perm.trans (Perm.cons x (sort-Perm xs)) (place-Perm x (sort xs))

dropins_of : (entries : List CString) → (names : List CString) × DropIns entries names
dropins_of [] = ([], nothing_more)
dropins_of (e ∷ entries) =
    let (names, d) = dropins_of entries in
    elim (Bool-cases (is_dropin e && prints e)) [
      | inl yes_it ↦ (e ∷ names, takes (is_dropin_sound e (ground arith) (ground arith)) d)
      | inr no_it ↦ (names, skips (λ i. let f = is_dropin_complete e i in absurd cc) d)
    ]

collect-take :
    (entries names picked : List CString) (over : ℕ)
    → DropIns entries picked
    → (collect entries names over).0 ≡ names ++ take (16 - length names) picked
unfolding collect
collect-take entries names picked over nothing_more =
    let none_left : take (16 - length names) picked ≡ [] = take-nil (16 - length names) in
    rw none_left (sym (append-nil names))
collect-take (e ∷ entries) names (p ∷ picked) over (takes i d) =
    let h = is_dropin_complete e i in
    let is_one : is_dropin e ≡ true = ground (arith, h) in
    let short : prints e ≡ true = ground (arith, h) in
    elim (Bool-cases (leb (max_files - 1) (length names))) [
      | inl full ↦
          let z : 16 - length names ≡ 0 = ground (arith, full) in
          rw (is_one, short, full, collect-take entries names picked (u32 (over + 1)) d, z) refl
      | inr room ↦
          let s : 16 - length names ≡ suc (16 - length (names ++ e ∷ [])) =
            ground (arith, room, length-append names (e ∷ [])) in
          rw (is_one, short, room, s)
            (collect-take entries (names ++ e ∷ []) picked over d
              ∙ append_assoc names (e ∷ []) (take (16 - length (names ++ e ∷ [])) picked))
    ]
collect-take (e ∷ entries) names picked over (skips n d) = elim (Bool-cases (is_dropin e)) [
  | inl is_one ↦ elim (Bool-cases (prints e)) [
    | inl short ↦ absurd (n (is_dropin_sound e is_one short))
    | inr long ↦ rw (is_one, long) (collect-take entries names picked (u32 (over + 1)) d)
  ]
  | inr other ↦ rw other (collect-take entries names picked over d)
]

abbrev pub listing : Option (List CString) → List CString
listing none = []
listing (some entries) = entries

-- The names that a load reads, out of what the directory lists (nothing, where it cannot be opened):
-- the first 16 drop-ins, put into byte order.
pub record IsPicked (entries : Option (List CString)) (names : List CString) : Type 0 where
  pub dropins : List CString
  pub all_dropins : DropIns (listing entries) dropins
  pub first_16 : Perm (take 16 dropins) names
  pub ordered : Ordered names

pub names_in-IsPicked : (entries : Option (List CString)) → IsPicked entries (names_in entries)
names_in-IsPicked none = record {
  dropins = [];
  all_dropins = nothing_more;
  first_16 = Perm.rfl;
  ordered = tt;
}
names_in-IsPicked (some entries) =
    let (names, d) = dropins_of entries in
    record {
      dropins = names;
      all_dropins = d;
      first_16 = rw (← collect-take entries [] names 0 d) (sort-Perm (collect entries [] 0).0);
      ordered = names_in-Ordered (some entries);
    }

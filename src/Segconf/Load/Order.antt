-- ===== src/Segconf/Load/Order.antt =====
-- The drop-ins that are read, and their order (src/reac_segconf.c).
use reac_pw.Prelude.{
  ℕ, suc, ◌+◌, ◌-◌, ◌≤◌, ◌≡◌, refl, ap, ◌∙◌, inl, inr, Bool, true, false, Option, none, some, not,
  List, [], ◌∷◌, ◌++◌, arith, length, length-append, leb, Bool-cases, All,
}
use Prim.Native.Nat.{Ordering}
use reac_pw.Prelude.Words.{u32}
use reac_pw.Prelude.Bytes.{CString}
use reac_pw.Prelude.Text.{strcmp, strcmp-cases, strcmp-gt}
use reac_pw.Segconf.Load.{max_files, is_dropin, prints, collect, place, sort}

pub All-append {ℓ} :
    (P : CString → Type ℓ) (xs : List CString) (x : CString) → All P xs → P x → All P (xs ++ x ∷ [])
All-append P [] x a p = (p, tt)
All-append P (y ∷ ys) x a p = (a.0, All-append P ys x a.1 p)

-- Names that a label has room for, and few enough to be read behind the hand-written file.
pub record IsRead (names : List CString) : Type 0 where
  pub short : All (λ n. prints n ≡ true) names
  pub few : length names ≤ max_files - 1

pub collect-IsRead :
    (entries names : List CString) (over : ℕ) → IsRead names → IsRead (collect entries names over).0
unfolding collect
collect-IsRead [] names over r = r
collect-IsRead (e ∷ entries) names over r = elim (Bool-cases (not (is_dropin e))) [
  | inl other ↦ rw other (collect-IsRead entries names over r)
  | inr dropin ↦ elim (Bool-cases (prints e)) [
    | inr long ↦ rw (dropin, long) (collect-IsRead entries names (u32 (over + 1)) r)
    | inl short ↦ elim (Bool-cases (leb (max_files - 1) (length names))) [
      | inl full ↦ rw (dropin, short, full) (collect-IsRead entries names (u32 (over + 1)) r)
      | inr room ↦
          rw (dropin, short, room)
            (collect-IsRead entries (names ++ e ∷ []) over (record {
              short = All-append (λ n. prints n ≡ true) names e r.short short;
              few = longer room;
            }))
    ]
  ]
]
  where
    longer : leb (max_files - 1) (length names) ≡ false → length (names ++ e ∷ []) ≤ max_files - 1
    longer room = ground (arith, length-append names (e ∷ []))

place-All {ℓ} :
    (P : CString → Type ℓ) (x : CString) (xs : List CString) → P x → All P xs → All P (place x xs)
place-All P x [] p a = (p, tt)
place-All P x (y ∷ ys) p a = elim (strcmp-cases x y) [
  | inl lt ↦ rw (All, lt) (p, a)
  | inr (inl eq) ↦ rw (All, eq) (p, a)
  | inr (inr gt) ↦ rw (All, gt) (a.0, place-All P x ys p a.1)
]

pub sort-All {ℓ} : (P : CString → Type ℓ) (xs : List CString) → All P xs → All P (sort xs)
unfolding sort
sort-All P [] a = tt
sort-All P (x ∷ xs) a = place-All P x (sort xs) a.0 (sort-All P xs a.1)

-- Byte order, with a name not behind itself.
abbrev pub not_after : CString → CString → Bool
not_after a b = elim (strcmp a b) [ Ordering.gt ↦ false | _ ↦ true ]

abbrev pub Ordered : List CString → Type 0
Ordered [] = Unit
Ordered (x ∷ xs) = All (λ y. not_after x y ≡ true) xs × Ordered xs

not_after_trans :
    (a b c : CString) → not_after a b ≡ true → not_after b c ≡ true → not_after a c ≡ true
unfolding strcmp
not_after_trans [] b [] h k = refl
not_after_trans [] b (z ∷ zs) h k = refl
not_after_trans (x ∷ xs) [] c h k = absurd cc
not_after_trans (x ∷ xs) (y ∷ ys) [] h k = absurd cc
not_after_trans (x ∷ xs) (y ∷ ys) (z ∷ zs) h k = ground (arith, not_after_trans xs ys zs)

All-trans :
    (a b : CString) (xs : List CString)
    → not_after a b ≡ true
    → All (λ y. not_after b y ≡ true) xs
    → All (λ y. not_after a y ≡ true) xs
All-trans a b [] h k = tt
All-trans a b (x ∷ xs) h k = (not_after_trans a b x h k.0, All-trans a b xs h k.1)

place-Ordered : (x : CString) (xs : List CString) → Ordered xs → Ordered (place x xs)
place-Ordered x [] o = (tt, tt)
place-Ordered x (y ∷ ys) o = elim (strcmp-cases x y) [
  | inl lt ↦
      let h : not_after x y ≡ true = rw (not_after, lt) refl in
      rw (Ordered, lt) ((h, All-trans x y ys h o.0), o)
  | inr (inl eq) ↦
      let h : not_after x y ≡ true = rw (not_after, eq) refl in
      rw (Ordered, eq) ((h, All-trans x y ys h o.0), o)
  | inr (inr gt) ↦
      let h : not_after y x ≡ true = rw (not_after, strcmp-gt x y gt) refl in
      rw (Ordered, gt) (place-All (λ z. not_after y z ≡ true) x ys h o.0, place-Ordered x ys o.1)
]

pub sort-Ordered : (xs : List CString) → Ordered (sort xs)
unfolding sort
sort-Ordered [] = tt
sort-Ordered (x ∷ xs) = place-Ordered x (sort xs) (sort-Ordered xs)

length-place : (x : CString) (xs : List CString) → length (place x xs) ≡ suc (length xs)
length-place x [] = refl
length-place x (y ∷ ys) = ground (arith, length-place x ys)

pub length-sort : (xs : List CString) → length (sort xs) ≡ length xs
unfolding sort
length-sort [] = refl
length-sort (x ∷ xs) = length-place x (sort xs) ∙ ap suc (length-sort xs)

-- The drop-ins that a load opens, in the order in which it opens them.
abbrev pub names_in : Option (List CString) → List CString
names_in none = []
names_in (some entries) = sort (collect entries [] 0).0

none-IsRead : IsRead []
none-IsRead = record { short = tt; few = omega arith }

pub sorted-IsRead : (entries : List CString) (over : ℕ) → IsRead (sort (collect entries [] over).0)
sorted-IsRead entries over =
    let r = collect-IsRead entries [] over none-IsRead in
    let names = (collect entries [] over).0 in
    record {
      short = sort-All (λ n. prints n ≡ true) names r.short;
      few = rw (length-sort names) r.few;
    }

pub names_in-Ordered : (entries : Option (List CString)) → Ordered (names_in entries)
names_in-Ordered none = tt
names_in-Ordered (some entries) = sort-Ordered (collect entries [] 0).0

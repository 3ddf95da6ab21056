-- ===== src/Prelude/Members.antt =====
-- C strings in a list: membership, lists without repetition, and how long those can be.
use Prim.Native.Nat.{suc, ◌≤◌}
use mathlib.Core.Path.{◌≡◌, refl, sym}
use mathlib.Core.Bool.{Bool, true, false, ◌||◌}
use mathlib.Core.Logic.{inl, inr}
use mathlib.Core.List.{List, [], ◌∷◌, ◌++◌}
use native.Mathlib.Omega.{arith}
use reac_pw.Prelude.Tests.{if◌then◌else◌, Bool-cases}
use reac_pw.Prelude.Lists.{length, all}
use reac_pw.Prelude.Bytes.{CString, str_eq, str_eq→eq, str_eq_comm}

abbrev pub member : CString → List CString → Bool
member x [] = false
member x (y ∷ ys) = str_eq y x || member x ys

abbrev pub Distinct : List CString → Type 0
Distinct [] = Unit
Distinct (x ∷ xs) = (member x xs ≡ false) × Distinct xs

abbrev pub remove : CString → List CString → List CString
remove x [] = []
remove x (y ∷ ys) = let rest = remove x ys in if str_eq y x then ys else y ∷ rest

abbrev pub all_in : List CString → List CString → Bool
all_in xs ys = all (λ x. member x ys) xs

pub length-remove :
    (x : CString) (ys : List CString) → member x ys ≡ true → suc (length (remove x ys)) ≡ length ys
length-remove x [] h = absurd cc
length-remove x (y ∷ ys) h = ground (arith, length-remove x ys)

pub str_eq-apart : (x y z : CString) → str_eq y x ≡ true → str_eq z x ≡ false → str_eq y z ≡ false
str_eq-apart x y z h k = rw (str_eq→eq y x h, str_eq_comm x z, k)

pub str_eq-clash : (x y z : CString) → str_eq y x ≡ false → str_eq y z ≡ true → str_eq x z ≡ false
str_eq-clash x y z n h = rw (sym (str_eq→eq y z h), str_eq_comm x y, n)

pub str_eq-same : (x y z : CString) → str_eq y x ≡ true → str_eq y z ≡ str_eq x z
str_eq-same x y z h = rw (str_eq→eq y x h)

pub member-remove :
    (x z : CString) (ys : List CString)
    → str_eq z x ≡ false
    → member z ys ≡ true
    → member z (remove x ys) ≡ true
member-remove x z [] n h = absurd cc
member-remove x z (y ∷ ys) n h = elim (Bool-cases (str_eq y x)) [
  | inl e ↦ ground (arith, str_eq-apart x y z e n)
  | inr e ↦ ground (arith, member-remove x z ys n)
]

pub all_in-remove :
    (x : CString) (xs ys : List CString)
    → member x xs ≡ false
    → all_in xs ys ≡ true
    → all_in xs (remove x ys) ≡ true
all_in-remove x [] ys n h = refl
all_in-remove x (z ∷ xs) ys n h = ground (arith, member-remove x z ys, all_in-remove x xs ys)

-- Names without repetition, all from a list, are at most as many as the list has.
pub length-Distinct :
    (xs ys : List CString) → Distinct xs → all_in xs ys ≡ true → length xs ≤ length ys
length-Distinct [] ys d h = omega arith
length-Distinct (x ∷ xs) ys d h = ground (
  arith,
  length-remove x ys,
  length-Distinct xs (remove x ys) d.1 (all_in-remove x xs ys d.0 (ground arith)),
)

pub member-append :
    (z : CString) (xs : List CString) (x : CString)
    → member z (xs ++ x ∷ []) ≡ (member z xs || str_eq x z)
member-append z [] x = ground arith
member-append z (y ∷ ys) x = ground (arith, member-append z ys x)

pub Distinct-append :
    (xs : List CString) (x : CString) → Distinct xs → member x xs ≡ false → Distinct (xs ++ x ∷ [])
Distinct-append [] x d n = (refl, tt)
Distinct-append (y ∷ ys) x d n =
    (ground (arith, member-append y ys x, str_eq_comm x y), Distinct-append ys x d.1 (ground arith))

pub all_in-append :
    (xs : List CString) (x : CString) (ys : List CString)
    → all_in xs ys ≡ true
    → member x ys ≡ true
    → all_in (xs ++ x ∷ []) ys ≡ true
all_in-append [] x ys h m = ground arith
all_in-append (z ∷ xs) x ys h m = ground (arith, all_in-append xs x ys)

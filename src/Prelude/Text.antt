-- ===== src/Prelude/Text.antt =====
-- Byte order and printed numbers: `strcmp` and the `%d` of `snprintf`.
use Prim.Native.Nat.{ℕ, zero, suc, ◌+◌, ◌/◌, ◌%◌, compare, Ordering}
use mathlib.Core.Path.{◌≡◌, refl}
use mathlib.Core.Logic.{◌⊎◌, inl, inr}
use mathlib.Core.List.{[], ◌∷◌, ◌++◌}
use native.Mathlib.Omega.{arith}
use reac_pw.Prelude.Tests.{ltb, if◌then◌else◌}
use reac_pw.Prelude.Bytes.{CString}
use reac_pw.Prelude.Int.{ℤ, pos, negsuc}

-- The order of the first byte that differs, a shorter string before its extensions.
unfoldable pub strcmp : CString → CString → Ordering
strcmp [] [] = Ordering.eq
strcmp [] (y ∷ ys) = Ordering.lt
strcmp (x ∷ xs) [] = Ordering.gt
strcmp (x ∷ xs) (y ∷ ys) =
    let rest = strcmp xs ys in
    elim (compare x y) [
      | Ordering.lt ↦ Ordering.lt
      | Ordering.eq ↦ rest
      | Ordering.gt ↦ Ordering.gt
    ]

pub strcmp-cases :
    (a b : CString)
    → (strcmp a b ≡ Ordering.lt) ⊎ ((strcmp a b ≡ Ordering.eq) ⊎ (strcmp a b ≡ Ordering.gt))
strcmp-cases a b = kinds (strcmp a b)
  where
    kinds : (o : Ordering) → (o ≡ Ordering.lt) ⊎ ((o ≡ Ordering.eq) ⊎ (o ≡ Ordering.gt))
    kinds Ordering.lt = inl refl
    kinds Ordering.eq = inr (inl refl)
    kinds Ordering.gt = inr (inr refl)

pub strcmp-gt : (a b : CString) → strcmp a b ≡ Ordering.gt → strcmp b a ≡ Ordering.lt
unfolding strcmp
strcmp-gt [] [] h = absurd cc
strcmp-gt [] (y ∷ ys) h = absurd cc
strcmp-gt (x ∷ xs) [] h = refl
strcmp-gt (x ∷ xs) (y ∷ ys) h = ground (arith, strcmp-gt xs ys)

pub strcmp-lt_trans :
    (a b c : CString)
    → strcmp a b ≡ Ordering.lt
    → strcmp b c ≡ Ordering.lt
    → strcmp a c ≡ Ordering.lt
unfolding strcmp
strcmp-lt_trans [] [] c h k = absurd cc
strcmp-lt_trans [] (y ∷ ys) [] h k = absurd cc
strcmp-lt_trans [] (y ∷ ys) (z ∷ zs) h k = refl
strcmp-lt_trans (x ∷ xs) [] c h k = absurd cc
strcmp-lt_trans (x ∷ xs) (y ∷ ys) [] h k = absurd cc
strcmp-lt_trans (x ∷ xs) (y ∷ ys) (z ∷ zs) h k = ground (arith, strcmp-lt_trans xs ys zs)

-- Decimal digits, at most `fuel` of them; ten are enough for 32 bits.
abbrev pub digits : ℕ → ℕ → CString
digits zero n = []
digits (suc fuel) n =
    let front = digits fuel (n / 10) in (if ltb n 10 then [] else front) ++ (n % 10 + b'0') ∷ []

unfoldable pub decimal_text : ℕ → CString
decimal_text n = digits 10 n

abbrev pub signed_text : ℤ → CString
signed_text (pos n) = decimal_text n
signed_text (negsuc n) = b'-' ∷ decimal_text (n + 1)

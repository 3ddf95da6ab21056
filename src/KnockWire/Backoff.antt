-- ===== src/KnockWire/Backoff.antt =====
-- The backoff of an unanswered knock in closed form (src/reac_knock_wire.c).
use reac_pw.Prelude.{
  ℕ, zero, suc, ◌*◌, ◌/◌, ◌^◌, ◌≤◌, ◌<◌, ◌≡◌, sym, false, Bool-cases, inl, inr, arith, ltb, ◌==◌,
}
use reac_pw.Prelude.Words.{u64, second}
use reac_pw.KnockWire.Interface.{Libreac}
use reac_pw.KnockWire.{Wire, doubled, capped, period_ns, period_max_ns, slots_of}
use Prim.Native.Nat.{min}
use native.Mathlib.Nat.{mul_assoc, pow-succ', one-le-pow, le-mul_of_pos_right, div-le_self}

scaled : (p n : ℕ) → p * 2 ^ suc n ≡ p * 2 * 2 ^ n
scaled p n = rw (pow-succ' 2 n) (sym (mul_assoc p 2 (2 ^ n)))

le_scaled : (p n : ℕ) → p ≤ p * 2 ^ n
le_scaled p n = le-mul_of_pos_right p (one-le-pow n 2 (omega arith))

div_small : (a b : ℕ) → a < 2 ^ 63 → a / b < 2 ^ 63
div_small a b h = let l = div-le_self a b in omega arith

pub doubled-capped : (n p : ℕ) → p < 2 ^ 63 → capped (doubled n p) ≡ min (p * 2 ^ n) period_max_ns
doubled-capped zero p h = ground arith
doubled-capped (suc n) p h = elim (Bool-cases (ltb p period_max_ns)) [
  | inl below ↦
      let wide : u64 (p * 2) ≡ p * 2 = ground arith in
      rw (below, wide, scaled p n) (doubled-capped n (p * 2) (ground arith))
  | inr above ↦ let l = le_scaled p (suc n) in rw above (ground (arith, l))
]

module _ (lib : Libreac) where
  -- The period between an unanswered knock and the next is one cycle of the master at this cadence,
  -- doubled as often as knocks went unanswered, and 30 seconds at most.
  pub period_ns_lem :
      (w : Wire lib) (n : ℕ)
      → 0 < w.fps
      → 0 < slots_of lib w
      → slots_of lib w * second < 2 ^ 63
      → period_ns lib w n ≡ min (slots_of lib w * second / w.fps * 2 ^ n) period_max_ns
  unfolding period_ns
  period_ns_lem w n f s l =
      let some_rate : (w.fps == 0) ≡ false = ground arith in
      let some_slot : (slots_of lib w == 0) ≡ false = ground arith in
      let wide : u64 (slots_of lib w * second) ≡ slots_of lib w * second = omega arith in
      rw (some_rate, some_slot, wide)
        (doubled-capped n (slots_of lib w * second / w.fps)
          (div_small (slots_of lib w * second) w.fps l))

-- ===== src/LinkBudget/Fits.antt =====
-- What the admission of src/reac_link_budget.c lets onto a link.
use reac_pw.Prelude.{
  ℕ, ◌+◌, ◌*◌, ◌/◌, ◌≤◌, ◌<◌, ◌^◌, ◌≡◌, ◌↔◌, ◌⊎◌, true, false, List, [], ◌∷◌, arith, if◌then◌else◌,
}
use reac_pw.LinkBudget.{cost_kbit, master_pps, fits}

-- Masters ask for a link one after another, each at its cost; the admitted ones add up.
abbrev pub admit : ℕ → ℕ → List ℕ → ℕ
admit link used [] = used
admit link used (want ∷ rest) = admit link (if fits link used want then used + want else used) rest

abbrev pub Bounded : List ℕ → Type 0
Bounded [] = Unit
Bounded (want ∷ rest) = (want < 2 ^ 63) × Bounded rest

-- Whoever asks and in whatever order, what was admitted to a link of known speed never exceeds
-- that speed.
pub admit-le :
    (link used : ℕ) (wants : List ℕ)
    → 0 < link
    → link < 2 ^ 32
    → used ≤ link * 1000
    → Bounded wants
    → admit link used wants ≤ link * 1000
unfolding fits
admit-le link used [] p l h b = h
admit-le link used (want ∷ rest) p l h b =
    admit-le link (if fits link used want then used + want else used) rest p l (ground arith) b.1

-- A stream is admitted exactly when the sum stays within the link, and always where the link's
-- speed is unknown.
pub fits_iff :
    (link used want : ℕ)
    → link < 2 ^ 32
    → used < 2 ^ 63
    → want < 2 ^ 63
    → (fits link used want ≡ true) ↔ ((link ≡ 0) ⊎ (used + want ≤ link * 1000))
unfolding fits
fits_iff link used want l u w = ground arith

-- The cost of a master's 1492-byte stream is exact to the kbit at every rate that a word holds:
-- 1516 bytes on the wire, 8 bits each, one frame for 12 samples.
pub cost_kbit-master_pps :
    (rate : ℕ) → rate < 2 ^ 32 → cost_kbit (master_pps rate) 1492 ≡ rate / 12 * 12128 / 1000
unfolding cost_kbit master_pps
cost_kbit-master_pps rate h = ground arith

-- On a 100 Mbit/s port carrying one master's stream, a second one of the same rate is refused
-- exactly when the rate is 49_476 Hz or more: refused at 96 kHz, admitted at 48 and at 44.1 kHz.
pub second_master :
    (rate : ℕ)
    → rate < 2 ^ 32
    → let cost = cost_kbit (master_pps rate) 1492 in (fits 100 cost cost ≡ false) ↔ (49_476 ≤ rate)
unfolding fits
second_master rate h = ground (arith, cost_kbit-master_pps rate h)

-- ===== src/Qdisc/Catchup.antt =====
-- How much lateness a lead repays (src/reac_qdisc.c).
use reac_pw.Prelude.{
  ℕ, ◌-◌, ◌*◌, ◌/◌, ◌≤◌, ◌≡◌, refl, Bool-cases, ◌⊎◌, inl, inr, arith, ltb, ltb→lt, ltb→ge, ◌==◌,
  if◌then◌else◌,
}
use reac_pw.Prelude.Words.{u64}
use reac_pw.Qdisc.{etf_catchup_slots}

abbrev clamped : ℕ → ℕ
clamped n = if ltb n 1 then 1 else if ltb 1_000_000 n then 1_000_000 else n

clamped-bounds :
    (p : ℕ)
    → let n = clamped (u64 p / 1_000_000) in
      (1 ≤ n) × (n ≤ 1_000_000) × ((n ≡ 1) ⊎ (n * 1_000_000 ≤ p))
clamped-bounds p = elim (Bool-cases (ltb (u64 p / 1_000_000) 1)) [
  | inl low ↦ rw low (omega arith, omega arith, inl refl)
  | inr some_slot ↦ elim (Bool-cases (ltb 1_000_000 (u64 p / 1_000_000))) [
    | inl high ↦
        rw (some_slot, high)
          (
            omega arith,
            omega arith,
            inr (let h = ltb→lt 1_000_000 (u64 p / 1_000_000) high in omega (arith, h)),
          )
    | inr kept ↦
        let l = ltb→ge (u64 p / 1_000_000) 1 some_slot in
        let h = ltb→ge 1_000_000 (u64 p / 1_000_000) kept in
        rw (some_slot, kept) (omega (arith, l), omega (arith, h), inr (omega arith))
  ]
]

usable-eq : (d lead : ℕ) → (if ltb d lead then lead - d else 0) ≡ lead - d
usable-eq d lead = ground arith

-- The slots repaid are at least one and at most a million, and beyond the first no more than the
-- lead affords after the kernel's own delta.
pub etf_catchup_slots-bounds :
    (delta_ns lead_us fps : ℕ)
    → let n = etf_catchup_slots delta_ns lead_us fps in
      (1 ≤ n) × (n ≤ 1_000_000) × ((n ≡ 1) ⊎ (n * 1_000_000 ≤ (lead_us - delta_ns / 1000) * fps))
unfolding etf_catchup_slots
etf_catchup_slots-bounds delta_ns lead_us fps = elim (Bool-cases (fps == 0)) [
  | inl still ↦ rw still (omega arith, omega arith, inl refl)
  | inr paced ↦
      rw (paced, usable-eq (delta_ns / 1000) lead_us)
        (clamped-bounds ((lead_us - delta_ns / 1000) * fps))
]

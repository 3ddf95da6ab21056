-- ===== src/LinkBudget/Tests.antt =====
-- The budget of a 100 Mbit/s port (src/reac_link_budget.c).
use reac_pw.Prelude.{ℕ, ◌+◌, ◌*◌, ◌≤◌, ◌≡◌, refl, ◌↔◌, ◌⊎◌, true, false, List, [], ◌∷◌, arith}
use reac_pw.LinkBudget.{cost_kbit, master_pps, fits}
use reac_pw.LinkBudget.Fits.{admit, fits_iff, cost_kbit-master_pps, second_master}

abbrev masters : List ℕ
masters = 97_024 ∷ 97_024 ∷ 2_000 ∷ []

admitted : admit 100 0 masters ≡ 99_024
unfolding fits
admitted = refl

fits_iff_example :
    (fits 100 97_024 97_024 ≡ true) ↔ ((◌≡◌ {A = ℕ} 100 0) ⊎ (97_024 + 97_024 ≤ 100 * 1000))
fits_iff_example = fits_iff 100 97_024 97_024 (omega arith) (omega arith) (omega arith)

cost_kbit-master_pps_example : cost_kbit (master_pps 96_000) 1492 ≡ 97_024
cost_kbit-master_pps_example = cost_kbit-master_pps 96_000 (omega arith)

second_master_example :
    let cost = cost_kbit (master_pps 48_000) 1492 in
    (fits 100 cost cost ≡ false) ↔ (49_476 ≤ 48_000)
second_master_example = second_master 48_000 (omega arith)

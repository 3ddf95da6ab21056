-- ===== src/LinkBudget.antt =====
-- src/reac_link_budget.c and src/reac_link_budget.h: what a master's stream costs a link, in
-- `uint64_t` kbit/s from `unsigned` rates, and whether one more fits.
pub mod Fits
mod Tests
use reac_pw.Prelude.{ℕ, ◌+◌, ◌*◌, ◌/◌, Bool, true, ◌||◌, leb, ◌==◌, if◌then◌else◌}
use reac_pw.Prelude.Words.{u64}

abbrev pub wire_overhead_bytes : ℕ
wire_overhead_bytes = 24

abbrev pub budget_num : ℕ
budget_num = 100

abbrev pub budget_den : ℕ
budget_den = 100

-- facts/reac_facts.h, REAC_SAMPLES_PER_PKT.
abbrev pub samples_per_pkt : ℕ
samples_per_pkt = 12

unfoldable pub cost_kbit : ℕ → ℕ → ℕ
cost_kbit pps frame_bytes =
    if pps == 0 || frame_bytes == 0
    then 0
    else u64 (pps * (frame_bytes + wire_overhead_bytes) * 8) / 1000

unfoldable pub master_pps : ℕ → ℕ
master_pps sample_rate = sample_rate / samples_per_pkt

unfoldable pub fits : ℕ → ℕ → ℕ → Bool
fits link_mbit used_kbit want_kbit =
    if link_mbit == 0
    then true
    else leb (u64 (used_kbit + want_kbit)) (u64 (link_mbit * 1000 * budget_num) / budget_den)

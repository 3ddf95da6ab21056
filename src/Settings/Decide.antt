-- ===== src/Settings/Decide.antt =====
-- What src/reac_rate_cfg.c accepts, refuses and publishes.
use reac_pw.Prelude.{
  ℕ, ◌-◌, ◌≤◌, ◌≡◌, ◌/◌, ◌%◌, ◌^◌, refl, true, Bool-cases, inl, inr, List, [], ◌∷◌, ◌++◌, arith,
  length, take, if◌then◌else◌, ◌⊎◌,
}
use reac_pw.Prelude.Int.{ℤ, pos, negsuc}
use reac_pw.Prelude.Text.{decimal_text}
use reac_pw.Prelude.Bytes.{CString}
use reac_pw.Settings.Rate.{
  Refuse, has, Role, master, slave, nothing, role_slave, not_closed, not_drivable, rate_44k1,
  rate_48k, rate_96k, is_closed, Bits, rate_bit, drives, best_drivable, drivable_csv, cfg_decide,
}

-- A rate that a segment may be set to at all.
abbrev pub Closed : ℤ → Type 0
Closed hz = (hz ≡ pos 44_100) ⊎ (hz ≡ pos 48_000) ⊎ (hz ≡ pos 96_000)

-- The bit at a place of a mask is set.
abbrev pub HasBit : ℕ → ℕ → Type 0
HasBit mask place = (mask / 2 ^ place) % 2 ≡ 1

-- A rate whose own bit is set in a mask.
abbrev pub Driven : Bits → ℕ → ℤ → Type 0
Driven bits mask hz =
    ((hz ≡ pos 44_100) × HasBit mask bits.bit_44100)
    ⊎ ((hz ≡ pos 48_000) × HasBit mask bits.bit_48000)
    ⊎ ((hz ≡ pos 96_000) × HasBit mask bits.bit_96000)

is_closed_sound : (hz : ℤ) → is_closed hz ≡ true → Closed hz
is_closed_sound (pos hz) e = ground arith
is_closed_sound (negsuc n) e = absurd cc

is_closed_complete : (hz : ℤ) → Closed hz → is_closed hz ≡ true
is_closed_complete hz (inl e) = rw e refl
is_closed_complete hz (inr (inl e)) = rw e refl
is_closed_complete hz (inr (inr e)) = rw e refl

module _ (bits : Bits) where
  drives_sound :
      (hz : ℤ) (mask : ℕ) → drives bits mask (rate_bit bits hz) ≡ true → Driven bits mask hz
  unfolding has
  drives_sound (pos hz) mask e = ground arith
  drives_sound (negsuc n) mask e = absurd cc

  drives_complete :
      (hz : ℤ) (mask : ℕ) → Driven bits mask hz → drives bits mask (rate_bit bits hz) ≡ true
  unfolding has
  drives_complete hz mask (inl (e, d)) = rw e (ground (arith, d))
  drives_complete hz mask (inr (inl (e, d))) = rw e (ground (arith, d))
  drives_complete hz mask (inr (inr (e, d))) = rw e (ground (arith, d))

  -- What a master answers, by what the rate is.
  pub data Answers (hz : ℤ) (mask : ℕ) : Refuse → Type 0 where
    outside : ¬ Closed hz → Answers hz mask not_closed
    idle : Closed hz → ¬ Driven bits mask hz → Answers hz mask not_drivable
    taken : Closed hz → Driven bits mask hz → Answers hz mask nothing

  master-Answers : (hz : ℤ) (mask : ℕ) → Answers hz mask (cfg_decide bits master hz mask)
  unfolding cfg_decide
  master-Answers hz mask = elim (Bool-cases (is_closed hz)) [
    | inl closed ↦ elim (Bool-cases (drives bits mask (rate_bit bits hz))) [
      | inl driven ↦
          rw (closed, driven) (taken (is_closed_sound hz closed) (drives_sound hz mask driven))
      | inr idly ↦
          rw (closed, idly)
            (idle (is_closed_sound hz closed) (λ d. let e = drives_complete hz mask d in absurd cc))
    ]
    | inr none_of ↦ rw none_of (outside (λ c. let e = is_closed_complete hz c in absurd cc))
  ]

  -- A master answers by the first check that fails: a rate other than 44100, 48000 and 96000 is refused
  -- as such, one of the three whose own bit the mask lacks as not drivable, and the others are taken;
  -- a slave refuses any value at all, and only a slave gives that answer.
  pub cfg_decide-refusals :
      (role : Role) (hz : ℤ) (mask : ℕ)
      → ((role ≡ slave) × (cfg_decide bits role hz mask ≡ role_slave))
        ⊎ ((role ≡ master) × Answers hz mask (cfg_decide bits role hz mask))
  unfolding cfg_decide
  cfg_decide-refusals slave hz mask = inl (refl, refl)
  cfg_decide-refusals master hz mask = inr (refl, master-Answers hz mask)

  -- The default for a mask is the greatest rate that a master accepts under it: every accepted rate is
  -- at most the default, which is itself accepted unless it is 0, and then none is.
  pub best_drivable-greatest :
      (mask : ℕ)
      → ((hz : ℕ) → cfg_decide bits master (pos hz) mask ≡ nothing → hz ≤ best_drivable bits mask)
        × ((best_drivable bits mask ≡ 0)
            ⊎ (cfg_decide bits master (pos (best_drivable bits mask)) mask ≡ nothing))
  unfolding cfg_decide best_drivable
  best_drivable-greatest mask = (λ hz h. ground arith, ground arith)

-- The rates that a mask drives, in order.
abbrev pub drivable : Bits → ℕ → List ℕ → List ℕ
drivable bits mask [] = []
drivable bits mask (hz ∷ rates) =
    let more = drivable bits mask rates in
    if drives bits mask (rate_bit bits (pos hz)) then hz ∷ more else more

abbrev pub comma_then : List ℕ → CString
comma_then [] = []
comma_then (hz ∷ rates) = b',' ∷ decimal_text hz ++ comma_then rates

abbrev pub joined : List ℕ → CString
joined [] = []
joined (hz ∷ rates) = decimal_text hz ++ comma_then rates

-- The published text names every drivable rate, in ascending order between commas: what is in the
-- buffer is that text's start, as much as the buffer has room for, and the answer is its full length.
pub drivable_csv-joined :
    (bits : Bits) (mask buflen : ℕ)
    → let all_of = joined (drivable bits mask (rate_44k1 ∷ rate_48k ∷ rate_96k ∷ [])) in
      drivable_csv bits mask buflen
      ≡ record { text = take (buflen - 1) all_of; len = length all_of }
unfolding drivable_csv decimal_text
drivable_csv-joined bits mask buflen = ground arith

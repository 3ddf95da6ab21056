-- ===== src/Daemon/Budget/Admitted.antt =====
-- What an admitted master leaves on its port (`listener_open` in src/main.c).
use reac_pw.Prelude.{
  ℕ, ◌+◌, ◌*◌, ◌≤◌, ◌<◌, ◌^◌, ◌≡◌, refl, inl, inr, ◌⊎◌, true, ◌&&◌, Option, none, some, List, [],
  ◌∷◌, arith, length, take, Bool-cases,
}
use reac_pw.Prelude.Bytes.{CString}
use reac_pw.LinkBudget.{fits}
use reac_pw.LinkBudget.Fits.{fits_iff, cost_kbit-master_pps}
use reac_pw.Daemon.Budget.{
  Slot, on_port, stream_kbit, used_kbit, Hearing, is_source, drop_slot, yield_one, yield_all,
  yield_names,
}

-- Rates are 32-bit, and the daemon has few listeners.
abbrev pub Rates : List Slot → Type 0
Rates [] = Unit
Rates (s ∷ ss) = (s.sample_rate < 2 ^ 32) × Rates ss

pub record Small (ss : List Slot) : Type 0 where
  pub rates : Rates ss
  pub few : length ss ≤ 1000

pub stream_kbit-le : (rate : ℕ) → rate < 2 ^ 32 → stream_kbit rate ≤ 2 ^ 33
stream_kbit-le rate h = let e = cost_kbit-master_pps rate h in rw e (omega arith)

pub used_kbit-le :
    (port : CString) (ss : List Slot) → Rates ss → used_kbit port ss ≤ length ss * 2 ^ 33
unfolding used_kbit
used_kbit-le port [] r = omega arith
used_kbit-le port (s ∷ ss) r = elim (Bool-cases (s.opened && s.sink && on_port port s.tx_if)) [
  | inl holds ↦
      let more = used_kbit-le port ss r.1 in
      let own = stream_kbit-le s.sample_rate r.0 in rw holds (omega arith)
  | inr other ↦ let more = used_kbit-le port ss r.1 in rw other (omega arith)
]

pub drop_slot-Rates : (name : CString) (ss : List Slot) → Rates ss → Rates (drop_slot name ss)
unfolding drop_slot
drop_slot-Rates name [] r = tt
drop_slot-Rates name (s ∷ ss) r = elim (Bool-cases (s.opened && is_source name s.source)) [
  | inl here ↦ rw here r
  | inr later ↦ rw later (r.0, drop_slot-Rates name ss r.1)
]

pub length-drop_slot : (name : CString) (ss : List Slot) → length (drop_slot name ss) ≡ length ss
unfolding drop_slot
length-drop_slot name [] = refl
length-drop_slot name (s ∷ ss) = elim (Bool-cases (s.opened && is_source name s.source)) [
  | inl here ↦ rw here
  | inr later ↦ rw (later, length-drop_slot name ss)
]

pub yield_all-Small :
    (names : List CString) (h : Hearing) → Small h.slots → Small (yield_all names h).slots
unfolding yield_all yield_one
yield_all-Small [] h s = s
yield_all-Small (name ∷ names) h s = yield_all-Small names (yield_one name h) (record {
  rates = drop_slot-Rates name h.slots s.rates;
  few = rw (length-drop_slot name h.slots) s.few;
})

pub yield_names-Small :
    (max : ℕ) (o : Option (List CString)) (h : Hearing)
    → Small h.slots
    → Small (yield_names max o h).0.slots
yield_names-Small max none h s = s
yield_names-Small max (some names) h s = yield_all-Small (take max names) h s

pub fits-used :
    (link rate : ℕ) (port : CString) (ss : List Slot)
    → link < 2 ^ 32
    → rate < 2 ^ 32
    → Small ss
    → fits link (used_kbit port ss) (stream_kbit rate) ≡ true
    → (link ≡ 0) ⊎ (used_kbit port ss + stream_kbit rate ≤ link * 1000)
fits-used link rate port ss l r s f =
    let used = used_kbit-le port ss s.rates in
    let few = s.few in
    let want = stream_kbit-le rate r in
    (fits_iff link (used_kbit port ss) (stream_kbit rate) l (omega arith) (omega arith)).0 f

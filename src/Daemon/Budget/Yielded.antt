-- ===== src/Daemon/Budget/Yielded.antt =====
-- Who yields a port's budget (`link_budget_yield` in src/main.c).
use reac_pw.Prelude.{
  ℕ, zero, suc, ◌≡◌, refl, sym, ap, ◌∙◌, inl, inr, ◌⊎◌, Bool, true, false, not, ◌&&◌, List, [], ◌∷◌,
  arith, take, Bool-cases,
}
use reac_pw.Prelude.Bytes.{CString}
use reac_pw.Daemon.Budget.{
  Slot, budget_empty, Hearing, is_source, closed, drop_slot, yield_one, yield_all, is_holder_of,
}

module _ (taker port : CString) where
  abbrev pub holds : Slot → Bool
  holds s = is_holder_of taker port s s.source

  -- A holder that carries nothing and that nobody pinned.
  abbrev pub idle : Slot → Bool
  idle s = holds s && budget_empty s && not s.role_pinned

  -- Slot by slot: as it was, or closed where it was idle.
  abbrev pub Kept : List Slot → List Slot → Type 0
  Kept [] [] = Unit
  Kept [] (t ∷ ts) = ⊥
  Kept (s ∷ ss) [] = ⊥
  Kept (s ∷ ss) (t ∷ ts) = ((t ≡ s) ⊎ ((idle s ≡ true) × (t ≡ closed s))) × Kept ss ts

  -- An open listener of this name is idle.
  abbrev pub Guarded : CString → List Slot → Type 0
  Guarded name [] = Unit
  Guarded name (s ∷ ss) =
      (s.opened ≡ true → is_source name s.source ≡ true → idle s ≡ true) × Guarded name ss

  pub Kept-refl : (ss : List Slot) → Kept ss ss
  Kept-refl [] = tt
  Kept-refl (s ∷ ss) = (inl refl, Kept-refl ss)

  pub closed-idle : (s : Slot) → idle (closed s) ≡ false
  unfolding budget_empty
  closed-idle s = ground arith

  pub Kept-trans : (ss ts us : List Slot) → Kept ss ts → Kept ts us → Kept ss us
  Kept-trans [] [] us h k = k
  Kept-trans [] (t ∷ ts) us h k = absurd h
  Kept-trans (s ∷ ss) [] us h k = absurd h
  Kept-trans (s ∷ ss) (t ∷ ts) [] h k = absurd k
  Kept-trans (s ∷ ss) (t ∷ ts) (u ∷ us) h k = (slotwise h.0 k.0, Kept-trans ss ts us h.1 k.1)
    where
      slotwise :
          (t ≡ s) ⊎ ((idle s ≡ true) × (t ≡ closed s))
          → (u ≡ t) ⊎ ((idle t ≡ true) × (u ≡ closed t))
          → (u ≡ s) ⊎ ((idle s ≡ true) × (u ≡ closed s))
      slotwise (inl e) (inl f) = inl (f ∙ e)
      slotwise (inl e) (inr (i, f)) = inr (sym (ap idle e) ∙ i, f ∙ ap closed e)
      slotwise (inr (i, e)) (inl f) = inr (i, f ∙ e)
      slotwise (inr (i, e)) (inr (j, f)) =
          let never = sym (ap idle e) ∙ j in let no = closed-idle s in absurd cc

  pub drop_slot-Kept :
      (name : CString) (ss : List Slot) → Guarded name ss → Kept ss (drop_slot name ss)
  unfolding drop_slot
  drop_slot-Kept name [] g = tt
  drop_slot-Kept name (s ∷ ss) g = elim (Bool-cases (s.opened && is_source name s.source)) [
    | inl here ↦ rw here (inr (g.0 (ground arith) (ground arith), refl), Kept-refl ss)
    | inr later ↦ rw later (inl refl, drop_slot-Kept name ss g.1)
  ]

  pub drop_slot-Guarded :
      (name other : CString) (ss : List Slot) → Guarded other ss → Guarded other (drop_slot name ss)
  unfolding drop_slot
  drop_slot-Guarded name other [] g = tt
  drop_slot-Guarded name other (s ∷ ss) g =
      elim (Bool-cases (s.opened && is_source name s.source)) [
        | inl here ↦ rw here ((λ o h. absurd cc), g.1)
        | inr later ↦ rw later (g.0, drop_slot-Guarded name other ss g.1)
      ]

  abbrev pub AllGuarded : List CString → List Slot → Type 0
  AllGuarded [] ss = Unit
  AllGuarded (name ∷ names) ss = Guarded name ss × AllGuarded names ss

  pub drop_slot-AllGuarded :
      (name : CString) (names : List CString) (ss : List Slot)
      → AllGuarded names ss
      → AllGuarded names (drop_slot name ss)
  drop_slot-AllGuarded name [] ss g = tt
  drop_slot-AllGuarded name (n ∷ names) ss g =
      (drop_slot-Guarded name n ss g.0, drop_slot-AllGuarded name names ss g.1)

  pub yield_all-Kept :
      (names : List CString) (h : Hearing)
      → AllGuarded names h.slots
      → Kept h.slots (yield_all names h).slots
  unfolding yield_all yield_one
  yield_all-Kept [] h g = Kept-refl h.slots
  yield_all-Kept (name ∷ names) h g =
      Kept-trans h.slots (drop_slot name h.slots) (yield_all names (yield_one name h)).slots
        (drop_slot-Kept name h.slots g.0)
        (yield_all-Kept names (yield_one name h) (drop_slot-AllGuarded name names h.slots g.1))

  pub take-AllGuarded :
      (n : ℕ) (names : List CString) (ss : List Slot)
      → AllGuarded names ss
      → AllGuarded (take n names) ss
  take-AllGuarded zero names ss g = tt
  take-AllGuarded (suc n) [] ss g = tt
  take-AllGuarded (suc n) (name ∷ names) ss g = (g.0, take-AllGuarded n names ss g.1)

-- ===== src/Daemon/Budget/Holders.antt =====
-- All or nothing: the holders of a port that yield, and those that make the others stay
-- (`link_budget_yield` in src/main.c).
use reac_pw.Prelude.{
  ℕ, ◌-◌, ◌≤◌, ◌≡◌, ◌≢◌, refl, sym, ap, ◌∙◌, inl, inr, Bool, true, false, not, ◌&&◌, ◌||◌, Option,
  none, some, List, [], ◌∷◌, arith, length, take, take-short, Bool-cases,
}
use reac_pw.Prelude.Bytes.{CString, str_eq_comm}
use reac_pw.DeclaredVlan.{ifnamsiz}
use reac_pw.Daemon.Budget.{
  Slot, link_port_of, budget_empty, Hearing, is_source, is_holder_of, name_of, then_name, yielding,
  yield_names, link_budget_yield,
}
use reac_pw.Daemon.Budget.Yielded.{
  holds, Kept, Guarded, Kept-refl, AllGuarded, yield_all-Kept, take-AllGuarded,
}

abbrev pub shares : Option CString → Option CString → Bool
shares none o = false
shares (some a) o = is_source a o

-- No open listener has the source `a`.
abbrev pub Apart : Option CString → List Slot → Type 0
Apart a [] = Unit
Apart a (s ∷ ss) = (s.opened ≡ true → shares a s.source ≡ false) × Apart a ss

-- One open listener for a segment.
abbrev pub Unique : List Slot → Type 0
Unique [] = Unit
Unique (s ∷ ss) = (s.opened ≡ true → Apart s.source ss) × Unique ss

abbrev pub Short : Option CString → Type 0
Short none = Unit
Short (some a) = length a ≤ ifnamsiz - 1

-- Every source is an interface's name.
abbrev pub AllShort : List Slot → Type 0
AllShort [] = Unit
AllShort (s ∷ ss) = Short s.source × AllShort ss

abbrev pub Missing : Option CString → List CString → Type 0
Missing a [] = Unit
Missing a (name ∷ names) = (is_source name a ≡ false) × Missing a names

abbrev pub MissingIn : Option CString → Option (List CString) → Type 0
MissingIn a none = Unit
MissingIn a (some names) = Missing a names

pub then_name-MissingIn :
    (a : Option CString) (name : CString) (o : Option (List CString))
    → is_source name a ≡ false
    → MissingIn a o
    → MissingIn a (then_name name o)
then_name-MissingIn a name none h m = tt
then_name-MissingIn a name (some names) h m = (h, m)

pub shares-name_of :
    (a b : Option CString)
    → Short b
    → shares a b ≡ false
    → b ≢ none
    → is_source (name_of b) a ≡ false
shares-name_of none b f h n = refl
shares-name_of (some a) none f h n = absurd (n refl)
shares-name_of (some a) (some b) f h n = rw (take-short (ifnamsiz - 1) b f) (str_eq_comm a b ∙ h)

module _ (taker port : CString) where
  -- A holder that carries something or that somebody pinned.
  abbrev pub stays : Slot → Bool
  stays s = holds taker port s && (not (budget_empty s) || s.role_pinned)

  abbrev pub any_stays : List Slot → Bool
  any_stays [] = false
  any_stays (s ∷ ss) = stays s || any_stays ss

  pub yielding-stays : (ss : List Slot) → any_stays ss ≡ true → yielding taker port ss ≡ none
  unfolding yielding
  yielding-stays [] h = absurd cc
  yielding-stays (s ∷ ss) h = elim (Bool-cases (holds taker port s)) [
    | inl holder ↦ elim (Bool-cases (not (budget_empty s) || s.role_pinned)) [
      | inl firm ↦ rw (holder, firm)
      | inr lax ↦
          let more : any_stays ss ≡ true = ground arith in rw (holder, lax, yielding-stays ss more)
    ]
    | inr other ↦
        let more : any_stays ss ≡ true = ground arith in rw (other, yielding-stays ss more)
  ]

  pub holds-some : (s : Slot) → holds taker port s ≡ true → s.source ≢ none
  holds-some s h e = let never = sym (ap (is_holder_of taker port s) e) ∙ h in absurd cc

  pub holds-opened :
      (s : Slot) (o : Option CString) → is_holder_of taker port s o ≡ true → s.opened ≡ true
  holds-opened s none h = absurd cc
  holds-opened s (some a) h = ground arith

  pub yielding-MissingIn :
      (a : Option CString) (ss : List Slot)
      → AllShort ss
      → Apart a ss
      → MissingIn a (yielding taker port ss)
  unfolding yielding
  yielding-MissingIn a [] f h = tt
  yielding-MissingIn a (s ∷ ss) f h = elim (Bool-cases (holds taker port s)) [
    | inl holder ↦ elim (Bool-cases (not (budget_empty s) || s.role_pinned)) [
      | inl firm ↦ rw (holder, firm) tt
      | inr lax ↦
          rw (holder, lax)
            (then_name-MissingIn a (name_of s.source) (yielding taker port ss)
              (shares-name_of a s.source f.0 (h.0 (holds-opened s s.source holder))
                (holds-some s holder))
              (yielding-MissingIn a ss f.1 h.1))
    ]
    | inr other ↦ rw other (yielding-MissingIn a ss f.1 h.1)
  ]

  abbrev pub GuardedIn : List Slot → Option (List CString) → Type 0
  GuardedIn ss none = Unit
  GuardedIn ss (some names) = AllGuarded taker port names ss

  pub extend-AllGuarded :
      (s : Slot) (ss : List Slot) (names : List CString)
      → (s.opened ≡ true → Missing s.source names)
      → AllGuarded taker port names ss
      → AllGuarded taker port names (s ∷ ss)
  extend-AllGuarded s ss [] m g = tt
  extend-AllGuarded s ss (name ∷ names) m g = (
    ((λ o h. let missed = (m o).0 in absurd cc), g.0),
    extend-AllGuarded s ss names (λ o. (m o).1) g.1,
  )

  pub extend-GuardedIn :
      (s : Slot) (ss : List Slot) (o : Option (List CString))
      → (s.opened ≡ true → MissingIn s.source o)
      → GuardedIn ss o
      → GuardedIn (s ∷ ss) o
  extend-GuardedIn s ss none m g = tt
  extend-GuardedIn s ss (some names) m g = extend-AllGuarded s ss names m g

  pub then_name-GuardedIn :
      (ss : List Slot) (name : CString) (o : Option (List CString))
      → Guarded taker port name ss
      → GuardedIn ss o
      → GuardedIn ss (then_name name o)
  then_name-GuardedIn ss name none h g = tt
  then_name-GuardedIn ss name (some names) h g = (h, g)

  pub Apart-Guarded : (a : CString) (ss : List Slot) → Apart (some a) ss → Guarded taker port a ss
  Apart-Guarded a [] h = tt
  Apart-Guarded a (s ∷ ss) h = ((λ o e. let other = h.0 o in absurd cc), Apart-Guarded a ss h.1)

  pub name_of-Guarded :
      (b : Option CString) (ss : List Slot)
      → Short b
      → b ≢ none
      → Apart b ss
      → Guarded taker port (name_of b) ss
  name_of-Guarded none ss f n h = absurd (n refl)
  name_of-Guarded (some b) ss f n h = rw (take-short (ifnamsiz - 1) b f) (Apart-Guarded b ss h)

  pub yielding-GuardedIn :
      (ss : List Slot) → Unique ss → AllShort ss → GuardedIn ss (yielding taker port ss)
  unfolding yielding
  yielding-GuardedIn [] u f = tt
  yielding-GuardedIn (s ∷ ss) u f =
      let more = yielding taker port ss in
      let grown =
        extend-GuardedIn s ss more (λ o. yielding-MissingIn s.source ss f.1 (u.0 o))
          (yielding-GuardedIn ss u.1 f.1) in
      elim (Bool-cases (holds taker port s)) [
        | inl holder ↦ elim (Bool-cases (not (budget_empty s) || s.role_pinned)) [
          | inl firm ↦ rw (holder, firm) tt
          | inr lax ↦
              rw (holder, lax)
                (then_name-GuardedIn (s ∷ ss) (name_of s.source) more
                  (
                    (λ o e. ground arith),
                    name_of-Guarded s.source ss f.0 (holds-some s holder)
                        (u.0 (holds-opened s s.source holder)),
                  )
                  grown)
        ]
        | inr other ↦ rw other grown
      ]

  pub yield_names-Kept :
      (max : ℕ) (o : Option (List CString)) (h : Hearing)
      → GuardedIn h.slots o
      → Kept taker port h.slots (yield_names max o h).0.slots
  yield_names-Kept max none h g = Kept-refl taker port h.slots
  yield_names-Kept max (some names) h g =
      yield_all-Kept taker port (take max names) h (take-AllGuarded taker port max names h.slots g)

-- All or nothing, where there is one open listener for a segment: a port's budget is yielded by closing
-- listeners that hold the port, carry nothing and are not pinned, and every other listener is left as it
-- was. Where a single holder carries something or is pinned, nobody yields.
pub link_budget_yield-Kept :
    (max : ℕ) (taker tx_if : CString) (h : Hearing)
    → Unique h.slots
    → AllShort h.slots
    → Kept taker (link_port_of tx_if) h.slots (link_budget_yield max taker tx_if h).0.slots
      × (any_stays taker (link_port_of tx_if) h.slots ≡ true
          → link_budget_yield max taker tx_if h ≡ (h, 0))
unfolding link_budget_yield
link_budget_yield-Kept max taker tx_if h u f =
    let port = link_port_of tx_if in
    (
      yield_names-Kept taker port max (yielding taker port h.slots) h
          (yielding-GuardedIn taker port h.slots u f),
      λ firm. ap (λ o. yield_names max o h) (yielding-stays taker port h.slots firm),
    )

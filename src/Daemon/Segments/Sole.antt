-- ===== src/Daemon/Segments/Sole.antt =====
-- One open listener for a segment, whatever the daemon does with its table (src/main.c).
use reac_pw.Prelude.{
  ℕ, suc, ◌≡◌, refl, ap, ◌∙◌, inl, inr, true, false, some, List, [], ◌∷◌, arith, length, Bool-cases,
  Option-cases,
}
use reac_pw.Prelude.Bytes.{CString, str_eq, str_eq→eq, str_eq_comm}
use reac_pw.Daemon.Segments.{
  Listener, Hearing, serves, find, is_some, close_first, hearing_drop, put,
}

-- No open listener has this name.
abbrev pub Free : CString → List Listener → Type 0
Free name [] = Unit
Free name (l ∷ ls) = (serves name l ≡ false) × Free name ls

abbrev pub Sole : List Listener → Type 0
Sole [] = Unit
Sole (l ∷ ls) = (l.opened ≡ true → Free l.source ls) × Sole ls

pub find-Free :
    (ls : List Listener) (name : CString) → is_some (find ls name) ≡ false → Free name ls
find-Free [] name h = tt
find-Free (l ∷ ls) name h = elim (Bool-cases (serves name l)) [
  | inl this ↦ absurd (ground arith)
  | inr other ↦ (other, find-Free ls name (rw other at h))
]

close_first-Free :
    (ls : List Listener) (name a : CString) → Free a ls → Free a (close_first ls name)
close_first-Free [] name a f = tt
close_first-Free (l ∷ ls) name a f = elim (Bool-cases (serves name l)) [
  | inl this ↦ rw this (refl, f.1)
  | inr other ↦ rw other (f.0, close_first-Free ls name a f.1)
]

close_first-Sole : (ls : List Listener) (name : CString) → Sole ls → Sole (close_first ls name)
close_first-Sole [] name s = tt
close_first-Sole (l ∷ ls) name s = elim (Bool-cases (serves name l)) [
  | inl this ↦ rw this ((λ e. absurd cc), s.1)
  | inr other ↦
      rw other ((λ e. close_first-Free ls name l.source (s.0 e)), close_first-Sole ls name s.1)
]

-- The name of a listener that is closed is free, where it was the only one.
pub close_first-gone :
    (ls : List Listener) (name : CString) → Sole ls → Free name (close_first ls name)
close_first-gone [] name s = tt
close_first-gone (l ∷ ls) name s = elim (Bool-cases (serves name l)) [
  | inl this ↦
      let open_now : l.opened ≡ true = ground arith in
      let named : str_eq l.source name ≡ true = ground arith in
      rw this (refl, rw (str_eq→eq l.source name named) at (s.0 open_now))
  | inr other ↦ rw other (other, close_first-gone ls name s.1)
]

-- A new listener stands where a closed one stood, and the others where they were.
put-Free :
    (ls rs : List Listener) (new : Listener) (a : CString)
    → put ls new ≡ some rs
    → serves a new ≡ false
    → Free a ls
    → Free a rs
unfolding put
put-Free [] rs new a e n f = absurd cc
put-Free (l ∷ ls) rs new a e n f = elim (Bool-cases l.opened) [
  | inl busy ↦ elim (Option-cases (put ls new)) [
    | inl full ↦ absurd (ground arith)
    | inr (r, p) ↦
        let made : rs ≡ l ∷ r = ground arith in rw made (f.0, put-Free ls r new a p n f.1)
  ]
  | inr idle ↦ let made : rs ≡ new ∷ ls = ground arith in rw made (n, f.1)
]

pub put-Sole :
    (ls rs : List Listener) (new : Listener)
    → put ls new ≡ some rs
    → Free new.source ls
    → Sole ls
    → Sole rs
unfolding put
put-Sole [] rs new e n s = absurd cc
put-Sole (l ∷ ls) rs new e n s = elim (Bool-cases l.opened) [
  | inl busy ↦ elim (Option-cases (put ls new)) [
    | inl full ↦ absurd (ground arith)
    | inr (r, p) ↦
        let made : rs ≡ l ∷ r = ground arith in
        rw made (
          (λ e. put-Free ls r new l.source p (other_name busy) (s.0 e)),
          put-Sole ls r new p n.1 s.1,
        )
  ]
  | inr idle ↦ let made : rs ≡ new ∷ ls = ground arith in rw made ((λ e. n.1), s.1)
]
  where
    other_name : l.opened ≡ true → serves l.source new ≡ false
    other_name busy = let apart = n.0 in ground (arith, str_eq_comm new.source l.source)

pub length-put :
    (ls rs : List Listener) (new : Listener) → put ls new ≡ some rs → length rs ≡ length ls
unfolding put
length-put [] rs new e = absurd cc
length-put (l ∷ ls) rs new e = elim (Bool-cases l.opened) [
  | inl busy ↦ elim (Option-cases (put ls new)) [
    | inl full ↦ absurd (ground arith)
    | inr (r, p) ↦ let made : rs ≡ l ∷ r = ground arith in rw made (ap suc (length-put ls r new p))
  ]
  | inr idle ↦ let made : rs ≡ new ∷ ls = ground arith in rw made
]

length-close_first :
    (ls : List Listener) (name : CString) → length (close_first ls name) ≡ length ls
length-close_first [] name = refl
length-close_first (l ∷ ls) name = ground (arith, length-close_first ls name)

-- The table of `n` slots, with one open listener for a name.
pub record IsServing (n : ℕ) (h : Hearing) : Type 0 where
  pub sole : Sole h.listeners
  pub slots : length h.listeners ≡ n

pub hearing_drop-IsServing :
    (n : ℕ) (h : Hearing) (name : CString) → IsServing n h → IsServing n (hearing_drop h name)
unfolding hearing_drop
hearing_drop-IsServing n h name v = elim (Bool-cases (is_some (find h.listeners name))) [
  | inl there ↦ rw there (record {
    sole = close_first-Sole h.listeners name v.sole;
    slots = length-close_first h.listeners name ∙ v.slots;
  })
  | inr away ↦ rw away v
]

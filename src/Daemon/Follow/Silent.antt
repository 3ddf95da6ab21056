-- ===== src/Daemon/Follow/Silent.antt =====
-- When a segment that follows nobody goes back to its wire (src/main.c).
use reac_pw.Prelude.{
  ℕ, zero, suc, ◌+◌, ◌*◌, ◌<◌, ◌≤◌, ◌≡◌, ap, ◌∙◌, refl, Bool, true, false, ◌||◌, List, [], ◌∷◌,
  arith, leb, ◌==◌, if◌then◌else◌,
}
use reac_pw.Daemon.Follow.{Listener, is_named, follows, follows_nobody_ticks_max, reevaluate}

-- Polls until the segment is re-heard, each with whether its master was heard: the listener, and
-- whether it was.
abbrev pub polls : ℕ → Listener → List Bool → Listener × Bool
polls quiet l [] = (l, false)
polls quiet l (heard ∷ rest) =
    let (l', act) = reevaluate quiet l heard in
    let more = polls quiet l' rest in if act then (l', true) else more

-- The reference: somewhere in the polls, `n` in a row at which nothing was heard.
abbrev pub starts : ℕ → List Bool → Bool
starts zero flags = true
starts (suc n) [] = false
starts (suc n) (heard ∷ rest) = let more = starts n rest in if heard then false else more

abbrev pub has_run : ℕ → List Bool → Bool
has_run n [] = n == 0
has_run n (heard ∷ rest) = starts n (heard ∷ rest) || has_run n rest

pub starts-has_run :
    (n : ℕ) (flags : List Bool) → (starts n flags || has_run n flags) ≡ has_run n flags
starts-has_run zero [] = refl
starts-has_run (suc n) [] = refl
starts-has_run n (heard ∷ rest) = ground arith

-- A shorter run starts where a longer one does.
pub starts-shorter :
    (n m : ℕ) (flags : List Bool) → n ≤ m → starts m flags ≡ true → starts n flags ≡ true
starts-shorter zero m flags l h = refl
starts-shorter (suc n) zero flags l h = absurd (omega arith)
starts-shorter (suc n) (suc m) [] l h = absurd cc
starts-shorter (suc n) (suc m) (heard ∷ rest) l h =
    ground (arith, starts-shorter n m rest (omega arith))

pub reevaluate-heard :
    (quiet : ℕ) (l : Listener)
    → follows l ≡ true
    → reevaluate quiet l true ≡ (record l { follows_nobody_ticks = 0 }, false)
unfolding reevaluate
reevaluate-heard quiet l f = rw f

pub reevaluate-unheard :
    (quiet : ℕ) (l : Listener)
    → follows l ≡ true
    → is_named l.source ≡ true
    → (reevaluate quiet l false).1
      ≡ leb (follows_nobody_ticks_max quiet) (suc l.follows_nobody_ticks)
unfolding reevaluate
reevaluate-unheard quiet l f n = rw f (ground arith)

pub reevaluate-counts :
    (quiet : ℕ) (l : Listener)
    → follows l ≡ true
    → suc l.follows_nobody_ticks < follows_nobody_ticks_max quiet
    → reevaluate quiet l false
      ≡ (record l { follows_nobody_ticks = suc l.follows_nobody_ticks }, false)
unfolding reevaluate
reevaluate-counts quiet l f h = rw f (ground arith)

-- `d` more unheard polls but one and the segment is re-heard.
pub polls-starts :
    (quiet m : ℕ) (flags : List Bool) (l : Listener) (d k : ℕ)
    → follows l ≡ true
    → is_named l.source ≡ true
    → l.follows_nobody_ticks ≡ k
    → follows_nobody_ticks_max quiet ≡ suc m
    → m ≡ d + k
    → (polls quiet l flags).1 ≡ (starts (suc d) flags || has_run (suc m) flags)
polls-starts quiet m [] l d k f n e a b = ground arith
polls-starts quiet m (true ∷ flags) l d k f n e a b = rw (reevaluate-heard quiet l f) (
    polls-starts quiet m flags (record l { follows_nobody_ticks = 0 }) m 0 f n refl a (omega arith)
    ∙ starts-has_run (suc m) flags)
polls-starts quiet m (false ∷ flags) l zero k f n e a b =
    let acts : (reevaluate quiet l false).1 ≡ true =
      reevaluate-unheard quiet l f n ∙ ground arith in
    rw acts
polls-starts quiet m (false ∷ flags) l (suc d) k f n e a b =
    rw (reevaluate-counts quiet l f (omega arith)) (
      polls-starts quiet m flags (record l { follows_nobody_ticks = suc l.follows_nobody_ticks }) d
        (suc k) f n (ap suc e) a (omega arith)
      ∙ ground (arith, starts-shorter (suc d) m flags (omega arith)))

-- A segment that follows of its own accord and starts with a count of 0 goes back to its wire within
-- some polls exactly where, among them, the latch says at twice the quiet ticks in a row that nothing
-- is heard of its master: a frame heard in between starts the count anew, and no longer silence is
-- needed. (The latch itself clears only after the quiet ticks.)
pub polls-has_run :
    (quiet : ℕ) (flags : List Bool) (l : Listener)
    → 0 < quiet
    → follows l ≡ true
    → is_named l.source ≡ true
    → l.follows_nobody_ticks ≡ 0
    → (polls quiet l flags).1 ≡ has_run (follows_nobody_ticks_max quiet) flags
polls-has_run zero flags l q f n e = absurd (omega arith)
polls-has_run (suc quiet) flags l q f n e =
    let m : follows_nobody_ticks_max (suc quiet) ≡ suc (2 * quiet + 1) = omega arith in
    polls-starts (suc quiet) (2 * quiet + 1) flags l (2 * quiet + 1) 0 f n e m (omega arith)
    ∙ starts-has_run (suc (2 * quiet + 1)) flags
    ∙ rw m

-- ===== src/Segconf/DropIn.antt =====
-- The drop-in that a console writes: one section and its role (src/reac_segconf.c).
pub mod Role
pub mod Pinned
use reac_pw.Prelude.{
  ℕ, zero, suc, ◌+◌, ◌≤◌, ◌<◌, ◌≡◌, refl, sym, ap, ◌∙◌, ◌≢◌, ◌⊎◌, inl, inr, Bool, true, false, not,
  ◌&&◌, ◌||◌, Option, none, some, List, [], ◌∷◌, ◌++◌, arith, length, take, take-short, All, all,
  Bool-cases, Option-cases, if◌then◌else◌, leb, ltb, ◌==◌, map, length-append,
}
use reac_pw.Prelude.Bytes.{CString, codes, str_eq}
use reac_pw.Segconf.Text.{
  space, blank, trim, trim_start, trim_end, push_end, strip, strip_comment, split_first,
  found_first, unquote, lines, starts_line, fold_case, lower,
}

-- A byte that the grammar gives no meaning, neither blank nor mark nor capital.
abbrev pub plain : ℕ → Bool
plain c =
    leb b'a' c && leb c b'z'
    || leb b'A' c && leb c b'Z'
    || leb b'0' c && leb c b'9'
    || c == b'-'
    || c == b'.'
    || c == b'_'

pub record IsWord (s : CString) : Type 0 where
  pub some_byte : 0 < length s
  pub plainly : all plain s ≡ true

-- No byte of `s` is `mark`.
abbrev pub Without : ℕ → CString → Type 0
Without mark = All (λ c. c ≢ mark)

pub word-Without :
    (mark : ℕ) (s : CString) → plain mark ≡ false → all plain s ≡ true → Without mark s
word-Without mark [] p h = tt
word-Without mark (c ∷ s) p h = (differs, word-Without mark s p (ground arith))
  where
    differs : c ≢ mark
    differs e = ground arith

pub Without-append :
    (mark : ℕ) (s t : CString) → Without mark s → Without mark t → Without mark (s ++ t)
Without-append mark [] t a b = b
Without-append mark (c ∷ s) t a b = (a.0, Without-append mark s t a.1 b)

pub split_first-append :
    (mark : ℕ) (s t : CString) → Without mark s → split_first mark (s ++ mark ∷ t) ≡ some (s, t)
unfolding split_first
split_first-append mark [] t w = ground arith
split_first-append mark (c ∷ s) t w = ground (arith, split_first-append mark s t w.1)

pub lines-append : (s t : CString) → Without 10 s → lines (s ++ 10 ∷ t) ≡ s ∷ lines t
unfolding lines
lines-append [] t w = refl
lines-append (c ∷ s) t w = ground (arith, lines-append s t w.1)

pub strip-same : (b : Bool) (s : CString) → Without b'#' s → Without b';' s → strip b s ≡ s
strip-same b [] v w = refl
strip-same b (c ∷ s) v w = ground (arith, strip-same (blank c) s v.1 w.1)

pub trim_end-snoc : (s : CString) (c : ℕ) → space c ≡ false → trim_end (s ++ c ∷ []) ≡ s ++ c ∷ []
trim_end-snoc [] c h = ground arith
trim_end-snoc (b ∷ []) c h = ground arith
trim_end-snoc (b ∷ d ∷ s) c h = ground (arith, trim_end-snoc (d ∷ s) c h)

pub trim_end-word : (s : CString) → all plain s ≡ true → trim_end s ≡ s
trim_end-word [] h = refl
trim_end-word (c ∷ s) h = rw (trim_end-word s (ground arith)) (kept c s (ground arith))
  where
    kept : (b : ℕ) (t : CString) → plain b ≡ true → push_end b t ≡ b ∷ t
    kept b [] p = ground arith
    kept b (d ∷ t) p = refl

pub trim_end-append : (p s : CString) → 0 < length s → trim_end s ≡ s → trim_end (p ++ s) ≡ p ++ s
trim_end-append [] s l h = h
trim_end-append (c ∷ p) s l h =
    rw (trim_end-append p s l h) (kept (p ++ s) (omega (arith, length-append p s)))
  where
    kept : (t : CString) → 0 < length t → push_end c t ≡ c ∷ t
    kept [] l' = absurd (omega arith)
    kept (d ∷ t) l' = refl

pub trim-word : (s : CString) → all plain s ≡ true → trim s ≡ s
unfolding trim
trim-word [] h = refl
trim-word (c ∷ s) h = ground (arith, trim_end-word (c ∷ s) h)

pub trim-blank_word : (s : CString) → all plain s ≡ true → trim (b' ' ∷ s) ≡ s
unfolding trim
trim-blank_word [] h = refl
trim-blank_word (c ∷ s) h = ground (arith, trim_end-word (c ∷ s) h)

pub unquote-word : (s : CString) → all plain s ≡ true → unquote s ≡ s
unfolding unquote
unquote-word [] h = refl
unquote-word (c ∷ s) h = ground arith

-- ===== src/Box/Pin.antt =====
-- A written pin read back (src/reac_box_pin.c).
use reac_pw.Prelude.{
  ℕ, ◌≡◌, refl, Bool, true, ◌&&◌, Option, List, [], ◌∷◌, ◌++◌, arith, ◌==◌, length, take, drop, all,
  not,
}
use reac_pw.Prelude.Bytes.{CString, str_eq}
use reac_pw.Box.{Model, colon_at, is_token, first_model, label_behind, pinned, pin_parse}

abbrev pub no_colon : CString → Bool
no_colon s = all (λ c. not (c == b':')) s

pub colon_at-append : (t s : CString) → no_colon t ≡ true → colon_at (t ++ b':' ∷ s) ≡ length t
colon_at-append [] s h = refl
colon_at-append (c ∷ t) s h = ground (arith, colon_at-append t s)

pub colon_at-none : (t : CString) → no_colon t ≡ true → colon_at t ≡ length t
colon_at-none [] h = refl
colon_at-none (c ∷ t) h = ground (arith, colon_at-none t)

pub drop-append {ℓ} : {A : Type ℓ} (t s : List A) → drop (length t) (t ++ s) ≡ s
drop-append [] s = refl
drop-append (c ∷ t) s = drop-append t s

pub append_nil {ℓ} : {A : Type ℓ} (t : List A) → t ++ [] ≡ t
append_nil [] = refl
append_nil (c ∷ t) = rw (append_nil t)

-- The source's comparison of a token is equality.
pub is_token-str_eq :
    (t s u : CString)
    → (length u == length t && str_eq (take (length t) (t ++ s)) (take (length t) u)) ≡ str_eq t u
is_token-str_eq [] s [] = refl
is_token-str_eq [] s (y ∷ u) = ground arith
is_token-str_eq (x ∷ t) s [] = ground arith
is_token-str_eq (x ∷ t) s (y ∷ u) = ground (arith, is_token-str_eq t s u)

pub first_model-same :
    (p q : Model → Bool) (table : List Model)
    → ((m : Model) → p m ≡ q m)
    → first_model p table ≡ first_model q table
first_model-same p q [] h = refl
first_model-same p q (m ∷ table) h = rw (h m, first_model-same p q table h)

-- The catalogue's first entry with a token.
abbrev pub model_of : CString → List Model → Option Model
model_of token table = first_model (λ m. str_eq token m.token) table

abbrev pub pin_at : List Model → CString → ℕ → Option (Model × CString)
pin_at table spec n = pinned (first_model (is_token spec n) table) (label_behind (drop n spec))

pub pin_parse-pin_at :
    (table : List Model) (c : ℕ) (s : CString)
    → pin_parse table (c ∷ s) ≡ pin_at table (c ∷ s) (colon_at (c ∷ s))
unfolding pin_parse
pin_parse-pin_at table c s = refl

pub pin_at-token :
    (table : List Model) (t s : CString)
    → pin_at table (t ++ s) (length t) ≡ pinned (model_of t table) (label_behind s)
pin_at-token table t s = rw (
  first_model-same (is_token (t ++ s) (length t)) (λ m. str_eq t m.token) table
      (λ m. is_token-str_eq t s m.token),
  drop-append t s,
)

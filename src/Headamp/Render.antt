-- ===== src/Headamp/Render.antt =====
-- The rendered assertions within their buffer (src/reac_headamp_state.c).
use reac_pw.Prelude.{ℕ, ◌+◌, none, some, List, [], ◌∷◌, ◌++◌, length}
use reac_pw.Prelude.Bytes.{CString}
use reac_pw.Headamp.{Asserted, cell_text}

-- The whole text behind `used` bytes.
abbrev pub rest_text : Asserted → ℕ → List (ℕ × ℕ) → CString
rest_text t used [] = []
rest_text t used ((ch, param) ∷ cells) = elim (t ch param) [
  | none ↦ rest_text t used cells
  | some value ↦
      cell_text used ch param value
      ++ rest_text t (used + length (cell_text used ch param value)) cells
]

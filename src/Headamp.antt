-- ===== src/Headamp.antt =====
-- src/reac_headamp_state.c and src/reac_headamp_prop.c: what a segment's head amps are asserted to, why
-- a write to them is refused, and the cells that a controller's parameters carry. The numbers of the
-- protocol are libreac's, and parameters. A parameter's value is one of PipeWire's pods, of which the
-- code reads strings, Booleans, integers and floats; the nearest byte to a float is a parameter too.
pub mod Parse
pub mod Said
pub mod Walk
pub mod Accept
pub mod Render
mod Tests
use reac_pw.Prelude.{
  ℕ, zero, suc, ◌+◌, ◌-◌, Bool, true, false, not, ◌&&◌, ◌||◌, Option, none, some, List, [], ◌∷◌,
  ◌++◌, ltb, leb, ◌==◌, if◌then◌else◌, length, take,
}
use reac_pw.Prelude.Int.{ℤ, is_negative, is_zero}
use reac_pw.Prelude.Text.{decimal_text}
use reac_pw.Prelude.Bytes.{CString, codes}

pub data Refuse : Type 0 where
  nothing no_box box_master no_base bad_key out_of_range : Refuse

abbrev pub refuse_code : Refuse → CString
refuse_code no_box = codes "no-box"
refuse_code box_master = codes "box-master"
refuse_code no_base = codes "no-base"
refuse_code bad_key = codes "bad-key"
refuse_code out_of_range = codes "out-of-range"
refuse_code nothing = codes "none"

-- The more specific fact comes first.
unfoldable pub cfg_decide : Bool → ℤ → ℤ → Refuse
cfg_decide is_box_master channels base =
    if is_box_master
    then box_master
    else if is_negative channels || is_zero channels
    then no_box
    else if is_negative base
    then no_base
    else nothing

abbrev pub is_nothing : Refuse → Bool
is_nothing nothing = true
is_nothing _ = false

unfoldable pub cfg_state : Bool → ℤ → ℤ → CString
cfg_state is_box_master channels base =
    if is_nothing (cfg_decide is_box_master channels base)
    then codes "applied"
    else codes "unavailable"

-- libreac's numbers: the channels, the parameters and their identifiers, and the travel's top step.
pub record Facts : Type 0 where
  pub max_ch : ℕ
  pub params : ℕ
  pub phantom : ℕ
  pub pad : ℕ
  pub sens : ℕ
  pub sens_max : ℕ

-- The cells that are set, with their values.
abbrev pub Asserted : Type 0
Asserted = ℕ → ℕ → Option ℕ

abbrev pub asserted_init : Asserted
asserted_init ch param = none

module _ (facts : Facts) where
  abbrev pub value_in_range : ℕ → ℕ → Bool
  value_in_range param value =
      if param == facts.phantom || param == facts.pad
      then leb value 1
      else if param == facts.sens
      then leb value facts.sens_max
      else false

  abbrev pub with_cell : Asserted → ℕ → ℕ → ℕ → Asserted
  with_cell t ch param value c p = if c == ch && p == param then some value else t c p

  unfoldable pub asserted_set : Asserted → ℕ → ℕ → ℕ → Asserted × Bool
  asserted_set t ch param value =
      if leb facts.max_ch ch || leb facts.params param
      then (t, false)
      else if not (value_in_range param value)
      then (t, false)
      else (with_cell t ch param value, true)

-- The text so far, within its buffer, and how much it would take.
pub record Rendered : Type 0 where
  pub text : CString
  pub used : ℕ

abbrev pub cell_text : ℕ → ℕ → ℕ → ℕ → CString
cell_text used ch param value =
    (if used == 0 then [] else codes ",")
    ++ decimal_text ch
    ++ b':' ∷ (decimal_text param ++ b'=' ∷ decimal_text value)

abbrev pub append_cell : ℕ → Rendered → CString → Rendered
append_cell buflen r cell =
    let used = r.used + length cell in
    if ltb 0 buflen && ltb r.used (buflen - 1)
    then record { text = r.text ++ take (buflen - 1 - r.used) cell; used = used }
    else record { text = r.text; used = used }

abbrev pub render_cell : ℕ → Rendered → ℕ → ℕ → Option ℕ → Rendered
render_cell buflen r ch param none = r
render_cell buflen r ch param (some value) = append_cell buflen r (cell_text r.used ch param value)

-- The cells of the list, which is every channel's parameters in order.
unfoldable pub render_cells : ℕ → Asserted → Rendered → List (ℕ × ℕ) → Rendered
render_cells buflen t r [] = r
render_cells buflen t r ((ch, param) ∷ cells) =
    render_cells buflen t (render_cell buflen r ch param (t ch param)) cells

-- `n` numbers from `from` on.
abbrev pub upto : ℕ → ℕ → List ℕ
upto from zero = []
upto from (suc n) = from ∷ upto (from + 1) n

abbrev pub cells_of : ℕ → List ℕ → List (ℕ × ℕ)
cells_of ch [] = []
cells_of ch (p ∷ ps) = (ch, p) ∷ cells_of ch ps

abbrev pub all_cells : List ℕ → List ℕ → List (ℕ × ℕ)
all_cells [] params = []
all_cells (ch ∷ chs) params = cells_of ch params ++ all_cells chs params

-- The cells that are set, as `ch:param=value` in order, and the length that the text would take.
unfoldable pub asserted_render : Facts → Asserted → ℕ → Rendered
asserted_render facts t buflen =
    render_cells buflen t (record { text = []; used = 0 })
      (all_cells (upto 0 facts.max_ch) (upto 0 facts.params))

-- ===== src/Box.antt =====
-- src/reac_box_pin.c: an operator's pin of a box, `model` or `model:label`. The catalogue is libreac's,
-- and a parameter: its entries in order.
pub mod Pin
pub mod Row
pub mod Slots
mod Tests
use reac_pw.Prelude.{
  ℕ, suc, ◌-◌, Bool, true, false, not, ◌&&◌, ◌||◌, Option, none, some, List, [], ◌∷◌, ◌==◌,
  if◌then◌else◌, length, take, drop,
}
use reac_pw.Prelude.Bytes.{CString, str_eq}

pub record Model : Type 0 where
  pub token : CString
  pub display : CString
  pub name : CString
  pub in_ch : ℕ
  pub out_ch : ℕ

-- strcspn(s, ":").
abbrev pub colon_at : CString → ℕ
colon_at [] = 0
colon_at (c ∷ s) = let more = colon_at s in if c == b':' then 0 else suc more

-- Both ends agree on the length, so the whole token is compared.
abbrev pub is_token : CString → ℕ → Model → Bool
is_token spec toklen m = length m.token == toklen && str_eq (take toklen spec) (take toklen m.token)

abbrev pub first_model : (Model → Bool) → List Model → Option Model
first_model p [] = none
first_model p (m ∷ table) = let more = first_model p table in if p m then some m else more

-- The text behind the first colon, if there is one.
abbrev pub label_behind : CString → Option CString
label_behind [] = none
label_behind (c ∷ s) = if c == b':' then some s else none

abbrev pub labelled : Model → Option CString → Model × CString
labelled m none = (m, m.display)
labelled m (some []) = (m, m.display)
labelled m (some (c ∷ label)) = (m, c ∷ label)

abbrev pub pinned : Option Model → Option CString → Option (Model × CString)
pinned none label = none
pinned (some m) label = some (labelled m label)

unfoldable pub pin_parse : List Model → CString → Option (Model × CString)
pin_parse table [] = none
pin_parse table (c ∷ spec) =
    let toklen = colon_at (c ∷ spec) in
    pinned (first_model (is_token (c ∷ spec) toklen) table) (label_behind (drop toklen (c ∷ spec)))

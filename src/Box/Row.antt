-- ===== src/Box/Row.antt =====
-- src/reac_box_row.c: the box that a segment's nodes are sized and named from. What the box declares
-- and its identity page come from libreac, whose names and catalogue check are parameters; a width is
-- not negative here. The lines for the journal are left out.
use reac_pw.Prelude.{
  ℕ, Bool, true, false, not, ◌&&◌, Option, none, some, List, [], ◌∷◌, ◌++◌, ltb, ◌==◌, take,
  if◌then◌else◌,
}
use reac_pw.Prelude.Text.{decimal_text}
use reac_pw.Prelude.Bytes.{CString, codes, str_eq}
use reac_pw.Box.{Model}

-- A slot of the two, with the row that it holds.
pub record Slot : Type 0 where
  pub name : CString
  pub token : CString
  pub display : CString
  pub in_ch : ℕ
  pub out_ch : ℕ

abbrev pub empty_slot : Slot
empty_slot = record { name = []; token = []; display = []; in_ch = 0; out_ch = 0 }

pub data Which : Type 0 where
  first second : Which

-- `cur` is the slot last returned, where one is.
pub record Rows : Type 0 where
  pub slot0 : Slot
  pub slot1 : Slot
  pub cur : Option Which
  pub defect : ℕ
  pub unknown_family : Bool

unfoldable pub rows_init : Rows
rows_init = record {
  slot0 = empty_slot;
  slot1 = empty_slot;
  cur = none;
  defect = 0;
  unknown_family = false;
}

abbrev pub slot : Rows → Which → Slot
slot r first = r.slot0
slot r second = r.slot1

abbrev pub with_slot : Rows → Which → Slot → Rows
with_slot r first s = record r { slot0 = s; cur = some first }
with_slot r second s = record r { slot1 = s; cur = some second }

abbrev pub next_slot : Option Which → Which
next_slot none = first
next_slot (some first) = second
next_slot (some second) = first

-- What the code reads of an identity page, which may be absent.
pub record Identity : Type 0 where
  pub has_reac_version : Bool
  pub model_name : Option CString

abbrev pub have_hw : Option Identity → Bool
have_hw none = false
have_hw (some id) = id.has_reac_version

abbrev pub said : Option Identity → Option CString
said none = none
said (some id) = id.model_name

abbrev pub is_none : Option CString → Bool
is_none none = true
is_none (some s) = false

pub record Named : Type 0 where
  pub name : CString
  pub token : CString
  pub display : CString

abbrev pub same_row : Slot → ℕ → ℕ → CString → Bool
same_row s in_ch out_ch display = s.in_ch == in_ch && s.out_ch == out_ch && str_eq s.display display

-- libreac's part.
pub record Libreac : Type 0 where
  pub unknown : Option Identity → Bool
  pub box_name : Option Identity → Option CString → ℕ → ℕ → Option Named
  pub catalogue_defect : Option Model → ℕ → ℕ → CString → ℕ

module _ (lib : Libreac) where
  abbrev pub is_current : Rows → ℕ → ℕ → CString → Option Which → Bool
  is_current r in_ch out_ch display none = false
  is_current r in_ch out_ch display (some w) = same_row (slot r w) in_ch out_ch display

  abbrev pub current : Option Which → Which
  current none = first
  current (some w) = w

  -- A new row goes to the slot that was not returned last.
  abbrev pub built : Rows → Option Model → ℕ → ℕ → Option Identity → Named → Rows
  built r catalogue in_ch out_ch id n =
      record (with_slot r (next_slot r.cur) (record {
        name = n.name;
        token = n.token;
        display = n.display;
        in_ch = in_ch;
        out_ch = out_ch;
      })) {
        defect = lib.catalogue_defect catalogue in_ch out_ch n.display;
        unknown_family = lib.unknown id && is_none (said id);
      }

  abbrev pub with_name :
      Rows → Option Model → ℕ → ℕ → Option Identity → Option Named → Rows × Option Which
  with_name r catalogue in_ch out_ch id none = (r, none)
  with_name r catalogue in_ch out_ch id (some n) =
      if is_current r in_ch out_ch n.display r.cur
      then (r, r.cur)
      else (built r catalogue in_ch out_ch id n, some (next_slot r.cur))

  -- The rows after it, and the slot of the row returned, if any.
  unfoldable pub row_resolve :
      Rows → Option Model → ℕ → ℕ → Option Identity → Bool → Rows × Option Which
  row_resolve r catalogue in_ch out_ch id wait_over =
      if in_ch == 0 && out_ch == 0
      then (r, none)
      else if not (have_hw id) && not wait_over
      then (r, none)
      else with_name r catalogue in_ch out_ch id (lib.box_name id (said id) in_ch out_ch)

unfoldable pub has_playback : Option Slot → Bool
has_playback none = false
has_playback (some s) = ltb 0 s.out_ch

-- The badge's properties, in the order they are set.
pub data Badge : Type 0 where
  link_state box_model box_name box_width : CString → Badge

abbrev pub stated : Option CString → List Badge
stated none = []
stated (some state) = link_state state ∷ []

abbrev pub width_text : ℕ → ℕ → CString
width_text in_ch out_ch = decimal_text in_ch ++ b'x' ∷ decimal_text out_ch

abbrev pub box_badges : Option Slot → List Badge
box_badges none = box_model (codes "none") ∷ box_name [] ∷ box_width (codes "0x0") ∷ []
box_badges (some s) =
    box_model s.token ∷ box_name s.name ∷ box_width (take 15 (width_text s.in_ch s.out_ch)) ∷ []

-- Behind them stand the address and the identity page, which libreac publishes.
unfoldable pub badge_publish : Option Slot → Option CString → List Badge → List Badge
badge_publish row state rest = stated state ++ (box_badges row ++ rest)

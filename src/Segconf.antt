-- ===== src/Segconf.antt =====
-- src/reac_segconf.c and src/reac_segconf.h: the per-segment configuration. A refusal is kept as its
-- place and its reason; its sentence is not rendered. The role vocabulary (`reac_role_intent_parse`)
-- and the box catalogue (`reac_box_catalogue_by_token`) are libreac's, and parameters; an intent has
-- the five values that the source names. A `struct reac_segconf_seg *` is an index into the table,
-- whose entries never move.
pub mod Text
pub mod Parse
pub mod Queries
pub mod Vlans
pub mod Bounds
pub mod Cross
pub mod Frame
pub mod DropIn
pub mod Load
mod Tests
use reac_pw.Prelude.{
  ℕ, zero, suc, ◌+◌, ◌-◌, ◌*◌, ◌%◌, ◌^◌, Bool, true, false, not, ◌&&◌, ◌||◌, Option, none, some,
  List, [], ◌∷◌, ◌++◌, ltb, leb, ◌==◌, if◌then◌else◌, length, take,
}
use reac_pw.Prelude.Words.{u32}
use reac_pw.Prelude.Bytes.{CString, codes, str_eq}
use reac_pw.DeclaredVlan.{Declared, Added, full, duplicate, added, ifnamsiz}
use reac_pw.DeclaredVlan

abbrev pub max_segments : ℕ
max_segments = 32

abbrev pub max_refusals : ℕ
max_refusals = 8

abbrev pub file_len : ℕ
file_len = 96

abbrev pub model_len : ℕ
model_len = 24

-- The line buffer of the parser.
abbrev pub line_room : ℕ
line_room = 512

pub data Intent : Type 0 where
  auto master slave tap box : Intent

pub record Segment : Type 0 where
  pub name : CString
  pub role : Intent
  pub role_set : Bool
  pub ignore : Bool
  pub ignore_set : Bool
  pub said_ignored : Bool
  pub model : CString
  pub model_set : Bool
  pub model_file : CString
  pub role_file : CString
  pub ignore_file : CString
  pub seen_gen : ℕ

pub data Reason : Type 0 where
  line_too_long : Reason
  not_closed : CString → Reason
  text_after : CString → Reason
  unknown_section : CString → Reason
  names_nothing : Reason
  name_too_long : CString → Reason
  past_bound : CString → Reason
  repeated : CString → Reason
  no_key_value : CString → Reason
  outside_section : CString → Reason
  bad_role : CString → CString → Reason
  bad_model : CString → CString → Reason
  bad_ignore : CString → CString → Reason
  knock_retired : CString → CString → Reason
  unknown_key : CString → CString → Reason
  model_without_box : CString → CString → Reason
  box_without_model : CString → Reason
  out_of_memory larger_than_room not_readable : Reason
  files_past_bound : ℕ → Reason

pub record Refusal : Type 0 where
  pub file : CString
  pub line : ℕ
  pub reason : Reason

pub record Conf : Type 0 where
  pub segments : List Segment
  pub refusals : List Refusal
  pub refused : ℕ
  pub overflow : ℕ
  pub reading : CString
  pub gen : ℕ

abbrev pub conf_file : CString
conf_file = codes "reac-pw.conf"

unfoldable pub init : Conf
init = record { segments = []; refusals = []; refused = 0; overflow = 0; reading = []; gen = 0 }

-- A refusal is kept while there is room, and counted for ever.
unfoldable pub refuse : Conf → ℕ → Reason → Conf
refuse c line reason =
    let counted = record c { refused = u32 (c.refused + 1) } in
    if leb max_refusals (length c.refusals) then counted else record counted {
      refusals =
          c.refusals
          ++ record {
            file = if length c.reading == 0 then conf_file else c.reading;
            line = line;
            reason = reason;
          }
            ∷ [];
    }

abbrev pub fresh : CString → Segment
fresh name = record {
  name = take (ifnamsiz - 1) name;
  role = auto;
  role_set = false;
  ignore = false;
  ignore_set = false;
  said_ignored = false;
  model = [];
  model_set = false;
  model_file = [];
  role_file = [];
  ignore_file = [];
  seen_gen = 0;
}

abbrev pub next_index : Option ℕ → Option ℕ
next_index none = none
next_index (some i) = some (suc i)

-- Where the table holds `name`.
unfoldable pub index_of : List Segment → CString → Option ℕ
index_of [] name = none
index_of (s ∷ segs) name =
    let rest = next_index (index_of segs name) in if str_eq s.name name then some 0 else rest

abbrev pub get_elem? : List Segment → ℕ → Option Segment
get_elem? [] i = none
get_elem? (s ∷ segs) zero = some s
get_elem? (s ∷ segs) (suc i) = get_elem? segs i

abbrev pub modify : List Segment → ℕ → (Segment → Segment) → List Segment
modify [] i f = []
modify (s ∷ segs) zero f = f s ∷ segs
modify (s ∷ segs) (suc i) f = s ∷ modify segs i f

-- The section that the keys below belong to: its entry and its name.
pub record Cursor : Type 0 where
  pub at : ℕ
  pub name : CString

abbrev pub State : Type 0
State = Conf × Option Cursor

abbrev pub update : Conf → ℕ → (Segment → Segment) → Conf
update c i f = record c { segments = modify c.segments i f }

abbrev pub stamped : ℕ → Segment → Segment
stamped gen s = record s { seen_gen = gen }

abbrev pub seen_at : List Segment → ℕ → ℕ
seen_at segs i = elim (get_elem? segs i) [ none ↦ 0 | some s ↦ s.seen_gen ]

-- A section's header that is accepted: `seg_get`, the repeated-header refusal, and the cursor.
abbrev pub open_section : Conf → ℕ → CString → Option ℕ → State
open_section c line name (some i) =
    let c' = if seen_at c.segments i == c.gen then refuse c line (repeated name) else c in
    (update c' i (stamped c.gen), some (record { at = i; name = name }))
open_section c line name none =
    if leb max_segments (length c.segments)
    then (refuse (record c { overflow = u32 (c.overflow + 1) }) line (past_bound name), none)
    else (
      record c { segments = c.segments ++ stamped c.gen (fresh name) ∷ [] },
      some (record { at = length c.segments; name = name }),
    )

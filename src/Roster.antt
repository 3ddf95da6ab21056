-- ===== src/Roster.antt =====
-- src/reac_roster.c and src/reac_roster.h: what the daemon publishes about its segments, as the
-- properties that moved. A property's key is its place, rendered by `key_text`; the buffers' sizes are
-- written out as `take`.
pub mod Words
pub mod Order
pub mod Delta
pub mod Publish
pub mod Emit
mod Tests
use reac_pw.Prelude.{
  ℕ, zero, suc, ◌+◌, ◌-◌, ◌*◌, Bool, true, false, not, ◌&&◌, ◌||◌, Option, none, some, List, [],
  ◌∷◌, ◌++◌, ltb, leb, ◌==◌, if◌then◌else◌, length, take,
}
use reac_pw.Prelude.Int.{ℤ}
use reac_pw.Prelude.Words.{u32}
use reac_pw.Prelude.Bytes.{CString, codes, str_eq}
use reac_pw.Prelude.Text.{strcmp, decimal_text, signed_text}
use Prim.Native.Nat.{Ordering}
use reac_pw.DeclaredVlan.{ifnamsiz}
use reac_pw.Roster.Words.{RosterState, state_name, state_said}

abbrev pub max_segments : ℕ
max_segments = 32

-- REAC_ROSTER_KV_MAX: the size and every field of every row.
abbrev pub max_kvs : ℕ
max_kvs = 1 + max_segments * 7

abbrev pub val_room : ℕ
val_room = 112

pub record Seg : Type 0 where
  pub name : CString
  pub state : RosterState
  pub model : CString
  pub role : CString
  pub source : CString
  pub inputs : ℤ
  pub outputs : ℤ
  pub status : CString

pub record Roster : Type 0 where
  pub carried : List Seg
  pub want : List Seg
  pub overflow : ℕ

unfoldable pub init : Roster
init = record { carried = []; want = []; overflow = 0 }

unfoldable pub begin : Roster → Roster
begin r = record r { want = []; overflow = 0 }

-- An absent or empty word reads as `fallback`.
abbrev pub word_or : CString → CString → CString
word_or fallback [] = fallback
word_or fallback (c ∷ s) = c ∷ s

abbrev pub seg : CString → RosterState → CString → CString → CString → ℤ → ℤ → Seg
seg name state model role source inputs outputs = record {
  name = take (ifnamsiz - 1) name;
  state = state;
  model = take 31 (word_or (codes "none") model);
  role = take 15 (word_or (codes "auto") role);
  source = take (val_room - 1) (word_or (codes "autodetected") source);
  inputs = inputs;
  outputs = outputs;
  status = [];
}

abbrev pub after_row : Seg → Option (List Seg) → Option (List Seg)
after_row t none = none
after_row t (some ts) = some (t ∷ ts)

-- The place for `name` among the rows, in byte order, or `none` where it stands there already.
unfoldable pub insert : List Seg → CString → Seg → Option (List Seg)
insert [] name s = some (s ∷ [])
insert (t ∷ ts) name s =
    let rest = after_row t (insert ts name s) in
    elim (strcmp t.name name) [
      | Ordering.eq ↦ none
      | Ordering.gt ↦ some (s ∷ t ∷ ts)
      | Ordering.lt ↦ rest
    ]

abbrev pub placed : Roster → Option (List Seg) → Roster × Bool
placed r none = (r, false)
placed r (some rows) = (record r { want = rows }, true)

-- Adding the segment `s` under `name`, and whether it was added.
unfoldable pub add : Roster → CString → Seg → Roster × Bool
add r name s =
    if length name == 0
    then (r, false)
    else if leb max_segments (length r.want)
    then (record r { overflow = u32 (r.overflow + 1) }, false)
    else placed r (insert r.want name s)

abbrev pub with_status : CString → Seg → Seg
with_status text s = record s { status = take (val_room - 1) text }

abbrev pub set_status : List Seg → CString → CString → Option (List Seg)
set_status [] name text = none
set_status (s ∷ segs) name text =
    let rest = after_row s (set_status segs name text) in
    if str_eq s.name name then some (with_status text s ∷ segs) else rest

unfoldable pub status : Roster → CString → CString → Roster × Bool
status r name text = placed r (set_status r.want name text)

-- The fields of a row, by the number the source gives them.
abbrev pub fields : List ℕ
fields = 0 ∷ 1 ∷ 2 ∷ 3 ∷ 4 ∷ 5 ∷ 6 ∷ []

abbrev pub said : CString → CString → CString
said own [] = own
said own (c ∷ s) = c ∷ s

abbrev pub field_text : Seg → ℕ → CString
field_text s f =
    if f == 0
    then s.name
    else if f == 1
    then state_name s.state
    else if f == 2
    then s.model
    else if f == 3
    then s.role
    else if f == 4
    then s.source
    else if f == 5
    then signed_text s.inputs ++ b'/' ∷ signed_text s.outputs
    else said (state_said s.state) s.status

unfoldable pub field_val : Seg → ℕ → CString
field_val s f = take (val_room - 1) (field_text s f)

abbrev pub field_key : ℕ → CString
field_key f =
    if f == 0
    then codes "name"
    else if f == 1
    then codes "state"
    else if f == 2
    then codes "model"
    else if f == 3
    then codes "role"
    else if f == 4
    then codes "source"
    else if f == 5
    then codes "width"
    else codes "status"

-- `reac.roster.n`, or `reac.roster.<i>.<field>`.
pub data Key : Type 0 where
  count : Key
  field : ℕ → ℕ → Key

abbrev pub key_text : Key → CString
key_text count = codes "reac.roster.n"
key_text (field i f) = codes "reac.roster." ++ decimal_text i ++ b'.' ∷ field_key f

pub record Kv : Type 0 where
  pub key : Key
  pub val : CString
  pub remove : Bool

abbrev pub set : Key → CString → Kv
set k v = record { key = k; val = v; remove = false }

abbrev pub removal : Key → Kv
removal k = record { key = k; val = []; remove = true }

abbrev pub removes : List Kv → Bool
removes [] = false
removes (kv ∷ kvs) = kv.remove || removes kvs

-- A field that stands in the carried row with the same value is left out.
abbrev pub unchanged : Option Seg → ℕ → CString → Bool
unchanged none f v = false
unchanged (some p) f v = str_eq v (field_val p f)

unfoldable pub row : ℕ → Seg → Option Seg → List ℕ → List Kv
row i w p [] = []
row i w p (f ∷ fs) =
    let rest = row i w p fs in
    if unchanged p f (field_val w f) then rest else set (field i f) (field_val w f) ∷ rest

unfoldable pub removals : ℕ → List ℕ → List Kv
removals i [] = []
removals i (f ∷ fs) = removal (field i f) ∷ removals i fs

unfoldable pub gone : ℕ → List Seg → List Kv
gone i [] = []
gone i (p ∷ ps) = removals i fields ++ gone (suc i) ps

-- The rows of the wanted roster from index `i` on, then the carried ones past its end.
unfoldable pub rows : ℕ → List Seg → List Seg → List Kv
rows i [] ps = gone i ps
rows i (w ∷ ws) [] = row i w none fields ++ rows (suc i) ws []
rows i (w ∷ ws) (p ∷ ps) = row i w (some p) fields ++ rows (suc i) ws ps

-- Every entry that the two loops emit, in their order.
unfoldable pub changes : Roster → List Kv
changes r =
    (if length r.want == length r.carried
      then []
      else set count (decimal_text (length r.want)) ∷ [])
    ++ rows 0 r.want r.carried

pub record Emitted : Type 0 where
  pub out : List Kv
  pub n : ℕ
  pub over : Bool

unfoldable pub emit : ℕ → Emitted → Kv → Emitted
emit max e kv =
    if leb max e.n
    then record e { over = true; n = e.n + 1 }
    else record e { out = e.out ++ kv ∷ []; n = e.n + 1 }

abbrev pub emit_all : ℕ → Emitted → List Kv → Emitted
emit_all max e [] = e
emit_all max e (kv ∷ kvs) = emit_all max (emit max e kv) kvs

unfoldable pub delta : Roster → ℕ → Option (List Kv)
delta r max =
    let e = emit_all max (record { out = []; n = 0; over = false }) (changes r) in
    if e.over then none else some e.out

unfoldable pub shrank : Roster → Bool
shrank r = ltb (length r.want) (length r.carried)

unfoldable pub forget : Roster → Roster
forget r = record r { carried = [] }

unfoldable pub commit : Roster → Roster
commit r = record r { carried = r.want }

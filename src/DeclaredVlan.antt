-- ===== src/DeclaredVlan.antt =====
-- src/reac_declared_vlan.c and src/reac_declared_vlan.h: the VLAN segments that the operator
-- declared. `IFNAMSIZ` is the kernel's 16. A digit string too long for `strtol` saturates far above
-- the last VID, so its value is read here without a bound.
pub mod Split
pub mod Table
mod Tests
use reac_pw.Prelude.{
  ℕ, ◌+◌, ◌-◌, ◌*◌, Bool, true, false, not, ◌&&◌, ◌||◌, Option, none, some, List, [], ◌∷◌, ◌++◌,
  ltb, leb, ◌==◌, if◌then◌else◌, length, take, all,
}
use reac_pw.Prelude.Bytes.{CString, str_eq}

abbrev pub ifnamsiz : ℕ
ifnamsiz = 16

abbrev pub is_digit : ℕ → Bool
is_digit c = leb b'0' c && leb c b'9'

abbrev pub is_alnum : ℕ → Bool
is_alnum c = is_digit c || leb b'A' c && leb c b'Z' || leb b'a' c && leb c b'z'

abbrev pub name_byte : ℕ → Bool
name_byte c = is_alnum c || c == b'.' || c == b'-' || c == b':' || c == b'_'

abbrev pub name_ok : CString → Bool
name_ok [] = false
name_ok (c ∷ s) = all name_byte (c ∷ s)

abbrev pub after_dot : ℕ → CString → Option (CString × CString) → Option (CString × CString)
after_dot c s none = if c == b'.' then some ([], s) else none
after_dot c s (some (before, tail)) = some (c ∷ before, tail)

-- What stands before and behind the last dot (`strrchr`).
unfoldable pub last_dot : CString → Option (CString × CString)
last_dot [] = none
last_dot (c ∷ s) = after_dot c s (last_dot s)

-- The value of a string of digits, read from the left.
abbrev pub decimal : ℕ → CString → ℕ
decimal acc [] = acc
decimal acc (c ∷ s) = decimal (acc * 10 + (c - b'0')) s

abbrev pub split_at : ℕ → CString → CString → CString → Option (CString × ℕ)
split_at room segment parent tail =
    if length parent == 0 || length tail == 0
    then none
    else if not (all is_digit tail)
    then none
    else if ltb (decimal 0 tail) 1 || ltb 4094 (decimal 0 tail)
    then none
    else if ltb room (length parent + 1) || ltb ifnamsiz (length parent + 1)
    then none
    else if ltb ifnamsiz (length segment + 1)
    then none
    else if not (name_ok parent)
    then none
    else some (parent, decimal 0 tail)

abbrev pub split_parts : ℕ → CString → Option (CString × CString) → Option (CString × ℕ)
split_parts room segment none = none
split_parts room segment (some (parent, tail)) = split_at room segment parent tail

-- The parent and the VID, where the segment names a VLAN; `room` is the parent buffer's size.
unfoldable pub split : CString → ℕ → Option (CString × ℕ)
split segment room = if room == 0 then none else split_parts room segment (last_dot segment)

pub record Declared : Type 0 where
  pub parent : CString
  pub vid : ℕ

abbrev pub declares : List Declared → CString → ℕ → Bool
declares [] parent vid = false
declares (d ∷ tab) parent vid = d.vid == vid && str_eq d.parent parent || declares tab parent vid

pub data Added : Type 0 where
  full duplicate added : Added

-- The live entries of the table, whose number is the source's `*n`.
unfoldable pub add : List Declared → ℕ → CString → ℕ → List Declared × Added
add tab max parent vid =
    if declares tab parent vid
    then (tab, duplicate)
    else if leb max (length tab)
    then (tab, full)
    else (tab ++ record { parent = take (ifnamsiz - 1) parent; vid = vid } ∷ [], added)

-- ===== src/Segconf/Queries.antt =====
-- What the rest of the daemon asks of the configuration (src/reac_segconf.c).
use reac_pw.Prelude.{
  ℕ, ◌+◌, Bool, true, false, ◌&&◌, Option, none, some, List, [], ◌∷◌, ltb, if◌then◌else◌, length,
}
use reac_pw.Prelude.Bytes.{CString, str_eq}
use reac_pw.DeclaredVlan.{Declared, Added, full, duplicate, added, ifnamsiz}
use reac_pw.DeclaredVlan
use reac_pw.Segconf.{Conf, Segment, Intent}

abbrev pub find_in : List Segment → CString → Option Segment
find_in [] name = none
find_in (s ∷ segs) name =
    let rest = find_in segs name in if str_eq s.name name then some s else rest

unfoldable pub find : Conf → CString → Option Segment
find c name = find_in c.segments name

abbrev pub if_set {ℓ} : {A : Type ℓ} → Bool → A → Option A
if_set true a = some a
if_set false a = none

unfoldable pub ignored : Conf → CString → Bool
ignored c name = elim (find c name) [ none ↦ false | some s ↦ s.ignore ]

unfoldable pub role : Conf → CString → Option Intent
role c name = elim (find c name) [ none ↦ none | some s ↦ if_set s.role_set s.role ]

unfoldable pub role_file : Conf → CString → Option CString
role_file c name = elim (find c name) [
  | none ↦ none
  | some s ↦ if_set (s.role_set && ltb 0 (length s.role_file)) s.role_file
]

unfoldable pub ignore_file : Conf → CString → Option CString
ignore_file c name = elim (find c name) [
  | none ↦ none
  | some s ↦ if_set (s.ignore_set && ltb 0 (length s.ignore_file)) s.ignore_file
]

unfoldable pub model : Conf → CString → Option CString
model c name = elim (find c name) [ none ↦ none | some s ↦ if_set s.model_set s.model ]

abbrev pub declare_split : List Declared → ℕ → Option (CString × ℕ) → List Declared × Added
declare_split tab max none = (tab, duplicate)
declare_split tab max (some (parent, vid)) = DeclaredVlan.add tab max parent vid

-- One segment's turn: an ignored one, or one whose name is no VLAN's, declares nothing.
abbrev pub declare_one : Segment → List Declared → ℕ → List Declared × Added
declare_one s tab max =
    if s.ignore
    then (tab, duplicate)
    else declare_split tab max (DeclaredVlan.split s.name ifnamsiz)

-- What an entry's answer means for the rest of the segments: a table that filled ends the run.
abbrev pub after_one :
    (List Declared → ℕ → List Declared × Option ℕ)
    → List Declared
    → ℕ
    → Added
    → List Declared × Option ℕ
after_one go tab n full = (tab, none)
after_one go tab n duplicate = go tab n
after_one go tab n added = go tab (n + 1)

-- The table, and how many entries were new, or `none` where the table filled.
unfoldable pub declared_from : List Segment → List Declared → ℕ → ℕ → List Declared × Option ℕ
declared_from [] tab max n = (tab, some n)
declared_from (s ∷ segs) tab max n =
    let (tab', r) = declare_one s tab max in after_one (λ t m. declared_from segs t max m) tab' n r

unfoldable pub declared : Conf → List Declared → ℕ → List Declared × Option ℕ
declared c tab max = declared_from c.segments tab max 0

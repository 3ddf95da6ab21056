-- ===== src/Box/Tests.antt =====
-- A pinned box with a label, and a box that declares its widths (src/reac_box_pin.c and
-- src/reac_box_row.c).
use reac_pw.Prelude.{ℕ, true, false, Option, none, some, [], ◌∷◌}
use reac_pw.Prelude.Bytes.{CString, codes}
use reac_pw.Box.{Model}
use reac_pw.Box.Row.{Libreac, Named, Identity, rows_init, Rows, row_resolve}

abbrev s1608 : Model
s1608 = record {
  token = codes "s1608";
  display = codes "S-1608";
  name = codes "S-1608";
  in_ch = 16;
  out_ch = 8;
}

abbrev stage : CString
stage = codes "Stage: left"

abbrev named : Option Identity → Option CString → ℕ → ℕ → Option Named
named id said i o = some (record { name = codes "S"; token = codes "s"; display = i ∷ o ∷ [] })

abbrev shop : Libreac
shop = record { unknown = λ id. false; box_name = named; catalogue_defect = λ m i o display. 0 }

abbrev one_row : Rows
one_row = (row_resolve shop rows_init none 16 8 none true).0

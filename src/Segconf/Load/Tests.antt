-- ===== src/Segconf/Load/Tests.antt =====
-- Two configurations on a disk: a drop-in alone, and one behind a hand-written file
-- (src/reac_segconf.c).
use reac_pw.Prelude.{
  List, ◌≡◌, refl, Bool, true, false, Option, none, some, [], ◌∷◌, ◌++◌, Bool-cases, inl, inr,
  if◌then◌else◌,
}
use reac_pw.Prelude.Bytes.{CString, codes, str_eq}
use reac_pw.Segconf.{Intent, master, conf_file}
use reac_pw.Segconf.DropIn.Role.{drop_in}
use reac_pw.Segconf.Load.{
  Stamp, Disk, missing, holds, label_of, collect, sort, read_one, read_dropin, read_dropins,
  load_dropins, load, refresh,
}
use reac_pw.Segconf.Load.Order.{names_in}
use reac_pw.Segconf.Load.Names.{IsPicked}
use reac_pw.Segconf.Load.Files.{opens, label_if, opened_labels, load-files}
use reac_pw.Segconf.Load.Sound.{Loaded, load-Loaded}
use reac_pw.Segconf.Load.Refresh.Still.{refresh-still}
use reac_pw.Segconf.Load.Refresh.Fresh.{AllOpen, IsTold, refresh-fresh}
use reac_pw.Segconf.Load.Refresh.Anew.{is_none, IsDisk, refresh-anew}

abbrev intents : CString → Option Intent
intents v = if str_eq v (codes "master") then some master else none

abbrev models : CString → Bool
models v = str_eq v (codes "s1608")

abbrev stamp : Stamp
stamp = record { mtime_ns = 3; size = 60; ino = 7 }

abbrev console : CString
console = codes "50-console.conf"

abbrev text : CString
text = drop_in (codes "eth1") (codes "master")

abbrev is_console : CString → Bool
is_console label = str_eq label (label_of console)

-- A drop-in alone.
abbrev console_disk : Disk
console_disk = record {
  stat = λ label. if is_console label then some stamp else none;
  fopen = λ label. if is_console label then holds text else missing;
  entries = some (codes "50-console.conf~" ∷ console ∷ []);
}

-- The same, with a hand-written file.
abbrev both_disk : Disk
both_disk = record {
  stat = λ label. some stamp;
  fopen = λ label. holds text;
  entries = some (codes "90-local.conf" ∷ console ∷ []);
}

console_disk-IsDisk : IsDisk console_disk
console_disk-IsDisk label h = elim (Bool-cases (is_console label)) [
  | inl this ↦ rw this refl
  | inr other ↦ let h' = rw other at h in absurd cc
]

console_read : is_none (load intents models console_disk).files ≡ false
unfolding load load_dropins collect sort read_one read_dropins read_dropin
console_read = refl

load-Loaded_example : Loaded models (load intents models both_disk)
load-Loaded_example = load-Loaded intents models both_disk

load-files_example :
    (names : List CString) × IsPicked both_disk.entries names
    × ((load intents models both_disk).files
        ≡ label_if (opens (both_disk.fopen conf_file)) conf_file ++ opened_labels both_disk names)
load-files_example = load-files intents models both_disk

refresh-still_example :
    refresh intents models both_disk (load intents models both_disk)
    ≡ (load intents models both_disk, false)
refresh-still_example = refresh-still intents models both_disk refl

refresh-anew_example :
    refresh intents models console_disk (load intents models console_disk)
    ≡ (load intents models console_disk, true)
refresh-anew_example =
    refresh-anew intents models console_disk console_disk-IsDisk refl console_read

-- The console has written its file anew.
abbrev later_disk : Disk
later_disk = record {
  stat = λ label.
      if is_console label then some (record { mtime_ns = 4; size = 60; ino = 7 }) else some stamp;
  fopen = λ label. if is_console label then holds [] else holds text;
  entries = some (codes "90-local.conf" ∷ console ∷ []);
}

both_disk-IsTold : IsTold both_disk later_disk
both_disk-IsTold = record { files = told; names = λ e. refl }
  where
    told :
        (label : CString)
        → both_disk.stat label ≡ later_disk.stat label
        → both_disk.fopen label ≡ later_disk.fopen label
    told label e = elim (Bool-cases (is_console label)) [
      | inl this ↦ let e' = rw this at e in absurd cc
      | inr other ↦ rw other refl
    ]

both_disk-AllOpen : AllOpen both_disk (names_in both_disk.entries)
unfolding collect sort reac_pw.Prelude.Text.strcmp
both_disk-AllOpen = (refl, (refl, tt))

refresh-fresh_example :
    (refresh intents models later_disk (load intents models both_disk)).0
    ≡ load intents models later_disk
refresh-fresh_example =
    refresh-fresh intents models both_disk later_disk refl both_disk-AllOpen both_disk-IsTold

-- ===== src/Segconf/Load/Files.antt =====
-- Which files a load reads, and the stamps it takes (src/reac_segconf.c).
use reac_pw.Prelude.{
  ℕ, suc, ◌+◌, ◌-◌, ◌≤◌, ◌<◌, ◌≡◌, refl, sym, ap, ◌∙◌, inl, inr, Bool, true, false, Option, none,
  some, List, [], ◌∷◌, ◌++◌, arith, length, length-append, take, take-short, leb, ltb, ltb→lt,
  lt→ltb, Bool-cases, All,
}
use mathlib.Core.List.{append-nil, append_assoc}
use reac_pw.Prelude.Bytes.{CString}
use reac_pw.Segconf.{Intent, conf_file, file_len}
use reac_pw.Segconf.Load.{
  Stamp, Disk, Store, Opened, missing, starved, holds, max_files, started, stamps_with, prints,
  label_of, listed, dropin_dir, collect, sort, opened_as, read_one, told_unread, read_dropin,
  read_dropins, say_overflow, load_entries, load_dropins, load,
}
use reac_pw.Segconf.Load.Order.{names_in, sorted-IsRead}
use reac_pw.Segconf.Load.Names.{IsPicked, names_in-IsPicked}

abbrev pub opens : Opened → Bool
opens missing = false
opens starved = true
opens (holds bytes) = true

abbrev pub label_if : Bool → CString → List CString
label_if true label = label ∷ []
label_if false label = []

abbrev pub opened_labels : Disk → List CString → List CString
opened_labels d [] = []
opened_labels d (n ∷ ns) =
    label_if (opens (d.fopen (label_of n))) (label_of n) ++ opened_labels d ns

pub label_of-short :
    (name : CString) → prints name ≡ true → take (file_len - 1) (label_of name) ≡ label_of name
label_of-short name h =
    let lt = ltb→lt (length name + 16) file_len h in
    take-short (file_len - 1) (label_of name) (omega arith)

pub listed-files :
    (label : CString) (st : Store)
    → length st.files < max_files
    → take (file_len - 1) label ≡ label
    → (listed label st).files ≡ st.files ++ label ∷ []
listed-files label st lt e = rw (lt→ltb (length st.files) max_files lt, e)

-- What reading a file changes of the loader's fields.
pub record Read (opened : Bool) (label : CString) (stamp : Option Stamp) (slot : ℕ) (st st' : Store)
    : Type 0 where
  pub files : st'.files ≡ st.files ++ label_if opened label
  pub stamps : st'.stamps ≡ stamps_with st.stamps slot stamp
  pub overflow : st'.files_overflow ≡ st.files_overflow
  pub dir : st'.stamp_dir ≡ st.stamp_dir
  pub based : st'.based ≡ st.based

listed-kept :
    (label : CString) (st : Store)
    → ((listed label st).stamps ≡ st.stamps)
      × ((listed label st).files_overflow ≡ st.files_overflow)
      × ((listed label st).stamp_dir ≡ st.stamp_dir)
      × ((listed label st).based ≡ st.based)
listed-kept label st = elim (Bool-cases (ltb (length st.files) max_files)) [
  | inl room ↦ rw room (refl, refl, refl, refl)
  | inr full ↦ rw full (refl, refl, refl, refl)
]

told_unread-Read :
    (opened : Bool) (label : CString) (stamp : Option Stamp) (slot : ℕ) (st : Store)
    (r : Store × Bool)
    → Read opened label stamp slot st r.0
    → Read opened label stamp slot st (told_unread label r)
told_unread-Read opened label stamp slot st (st', true) v = v
told_unread-Read opened label stamp slot st (st', false) v = record {
  files = v.files;
  stamps = v.stamps;
  overflow = v.overflow;
  dir = v.dir;
  based = v.based;
}

pub label_if-few : (opened : Bool) (label : CString) → length (label_if opened label) ≤ 1
label_if-few true label = omega arith
label_if-few false label = omega arith

pub longer-few :
    {opened : Bool} {label : CString} {stamp : Option Stamp} {slot : ℕ} (more : ℕ) (st st' : Store)
    → Read opened label stamp slot st st'
    → length st.files + suc more ≤ max_files
    → length st'.files + more ≤ max_files
longer-few {opened} {label} more st st' r few =
    let one = label_if-few opened label in
    let eq = length-append st.files (label_if opened label) in rw r.files (omega arith)

module _ (intent_parse : CString → Option Intent) (known_model : CString → Bool) where
  opened_as-Read :
      (label : CString) (stamp : Option Stamp) (slot : ℕ) (st : Store) (o : Opened)
      → length st.files < max_files
      → take (file_len - 1) label ≡ label
      → let st' = record st { stamps = stamps_with st.stamps slot stamp } in
        Read (opens o) label stamp slot st (opened_as intent_parse known_model label o st').0
  opened_as-Read label stamp slot st missing lt e = record {
    files = sym (append-nil st.files);
    stamps = refl;
    overflow = refl;
    dir = refl;
    based = refl;
  }
  opened_as-Read label stamp slot st starved lt e =
      let st' = record st { stamps = stamps_with st.stamps slot stamp } in
      let (stamps, overflow, dir, based) = listed-kept label st' in
      record {
        files = listed-files label st' lt e;
        stamps = stamps;
        overflow = overflow;
        dir = dir;
        based = based;
      }
  opened_as-Read label stamp slot st (holds bytes) lt e =
      let st' = record st { stamps = stamps_with st.stamps slot stamp } in
      let (stamps, overflow, dir, based) = listed-kept label st' in
      record {
        files = listed-files label st' lt e;
        stamps = stamps;
        overflow = overflow;
        dir = dir;
        based = based;
      }

  pub read_one-Read :
      (d : Disk) (label : CString) (slot : ℕ) (st : Store)
      → length st.files < max_files
      → take (file_len - 1) label ≡ label
      → Read
          (opens (d.fopen label))
          label
          (d.stat label)
          slot
          st
          (read_one intent_parse known_model d label slot st).0
  unfolding read_one
  read_one-Read d label slot st lt e =
      opened_as-Read label (d.stat label) slot st (d.fopen label) lt e

  pub read_dropin-Read :
      (d : Disk) (name : CString) (st : Store)
      → length st.files < max_files
      → prints name ≡ true
      → let label = label_of name in
        Read
          (opens (d.fopen label))
          label
          (d.stat label)
          (length st.files)
          st
          (read_dropin intent_parse known_model d name st)
  unfolding read_dropin
  read_dropin-Read d name st lt h =
      let label = label_of name in
      let slot = length st.files in
      let full : leb max_files slot ≡ false = ground arith in
      rw full (
        told_unread-Read (opens (d.fopen label)) label (d.stat label) slot st
          (read_one intent_parse known_model d label slot st)
          (read_one-Read d label slot st lt (label_of-short name h)))

  read_dropins-files :
      (d : Disk) (names : List CString) (st : Store)
      → length st.files + length names ≤ max_files
      → All (λ n. prints n ≡ true) names
      → (read_dropins intent_parse known_model d names st).files ≡ st.files ++ opened_labels d names
  unfolding read_dropins
  read_dropins-files d [] st few short = sym (append-nil st.files)
  read_dropins-files d (n ∷ ns) st few short =
      let st' = read_dropin intent_parse known_model d n st in
      let r = read_dropin-Read d n st (omega arith) short.0 in
      read_dropins-files d ns st' (shorter r) short.1
      ∙ ap (λ fs. fs ++ opened_labels d ns) r.files
      ∙ append_assoc st.files (label_if (opens (d.fopen (label_of n))) (label_of n))
          (opened_labels d ns)
    where
      shorter :
          Read
            (opens (d.fopen (label_of n)))
            (label_of n)
            (d.stat (label_of n))
            (length st.files)
            st
            (read_dropin intent_parse known_model d n st)
          → length (read_dropin intent_parse known_model d n st).files + length ns ≤ max_files
      shorter r =
          longer-few (length ns) st (read_dropin intent_parse known_model d n st) r (omega arith)

  say_overflow-files : (st : Store) → (say_overflow st).files ≡ st.files
  say_overflow-files st = ground arith

  load_entries-files :
      (d : Disk) (entries : Option (List CString)) (st : Store)
      → st.files_overflow ≡ 0
      → length st.files ≤ 1
      → (load_entries intent_parse known_model d entries st).files
        ≡ st.files ++ opened_labels d (names_in entries)
  load_entries-files d none st e h = sym (append-nil st.files)
  load_entries-files d (some entries) st e h =
      let (names, over) = collect entries [] st.files_overflow in
      let begun = record st { files_overflow = over } in
      let r = sorted-IsRead entries st.files_overflow in
      let few = r.few in
      say_overflow-files (read_dropins intent_parse known_model d (sort names) begun)
      ∙ read_dropins-files d (sort names) begun (omega arith) r.short
      ∙ ap (λ o. st.files ++ opened_labels d (sort (collect entries [] o).0)) e

  pub first-Read :
      (d : Disk)
      → Read
          (opens (d.fopen conf_file))
          conf_file
          (d.stat conf_file)
          0
          started
          (read_one intent_parse known_model d conf_file 0 started).0
  first-Read d = read_one-Read d conf_file 0 started (omega arith) refl

  pub loaded-files :
      (d : Disk)
      → (load intent_parse known_model d).files
        ≡ label_if (opens (d.fopen conf_file)) conf_file ++ opened_labels d (names_in d.entries)
  unfolding load load_dropins
  loaded-files d =
      let (st, read) = read_one intent_parse known_model d conf_file 0 started in
      let r = first-Read d in
      let one = label_if-few (opens (d.fopen conf_file)) conf_file in
      let begun = record st { present = read; stamp_dir = d.stat dropin_dir } in
      load_entries-files d d.entries begun r.overflow (rw r.files one)
      ∙ ap (λ fs. fs ++ opened_labels d (names_in d.entries)) r.files

  -- A load reads the hand-written file, if it can be opened, and then exactly those drop-ins that can be
  -- opened, among the first 16 of the directory's names that are drop-ins (names that end in ".conf"
  -- behind something else, are not hidden and fit a label): in byte order, whatever the order in which
  -- the directory lists them.
  pub load-files :
      (d : Disk)
      → (names : List CString) × IsPicked d.entries names
        × ((load intent_parse known_model d).files
            ≡ label_if (opens (d.fopen conf_file)) conf_file ++ opened_labels d names)
  load-files d = (names_in d.entries, names_in-IsPicked d.entries, loaded-files d)

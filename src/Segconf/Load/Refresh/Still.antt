-- ===== src/Segconf/Load/Refresh/Still.antt =====
-- A refresh of what has not changed (src/reac_segconf.c).
use reac_pw.Prelude.{
  ◌+◌, ◌≤◌, ◌≡◌, refl, ◌∙◌, inl, inr, Bool, true, false, Option, none, some, List, [], ◌∷◌, ◌++◌,
  arith, length, length-append, ◌==◌, Bool-cases, All,
}
use mathlib.Core.List.{append-nil}
use reac_pw.Prelude.Bytes.{CString}
use reac_pw.Segconf.{Intent, conf_file}
use reac_pw.Segconf.Load.{
  started, Disk, Store, max_files, dropin_dir, stamps_with, prints, label_of, collect, sort,
  read_one, read_dropin, read_dropins, say_overflow, load_entries, load_dropins, load, has_moved,
  refresh,
}
use reac_pw.Segconf.Load.Order.{sorted-IsRead}
use reac_pw.Segconf.Load.Files.{opens, label_if, Read, longer-few, read_dropin-Read, first-Read}
use reac_pw.Segconf.Load.Refresh.{Seen, moved-same, any_moved-Seen, Seen-with, Seen-append}

-- The hand-written file was opened, and every stamp is what the disk says.
pub record IsSeen (d : Disk) (st : Store) : Type 0 where
  pub seen : Seen d st.stamps 0 st.files
  pub first : st.stamps 0 ≡ d.stat conf_file
  pub many : 1 ≤ length st.files
  pub dir : st.stamp_dir ≡ d.stat dropin_dir
  pub based : st.based ≡ true

Read-Seen :
    (d : Disk) (opened : Bool) (label : CString) (st : Store)
    → IsSeen d st
    → Seen d
        (stamps_with st.stamps (length st.files) (d.stat label))
        0
        (st.files ++ label_if opened label)
Read-Seen d true label st v =
    let slot = length st.files in
    let here : (slot == slot) ≡ true = ground arith in
    Seen-append d (stamps_with st.stamps slot (d.stat label)) 0 slot st.files label (omega arith)
      (rw here refl) (Seen-with d st.stamps 0 slot (d.stat label) st.files (omega arith) v.seen)
Read-Seen d false label st v =
    let slot = length st.files in
    rw (append-nil st.files)
      (Seen-with d st.stamps 0 slot (d.stat label) st.files (omega arith) v.seen)

Read-IsSeen :
    (d : Disk) (opened : Bool) (label : CString) (st st' : Store)
    → Read opened label (d.stat label) (length st.files) st st'
    → IsSeen d st
    → IsSeen d st'
Read-IsSeen d opened label st st' r v =
    let many = v.many in
    let behind : (0 == length st.files) ≡ false = ground arith in
    let longer = length-append st.files (label_if opened label) in
    record {
      seen = rw (r.stamps, r.files) (Read-Seen d opened label st v);
      first = rw (r.stamps, behind) v.first;
      many = rw r.files (omega arith);
      dir = r.dir ∙ v.dir;
      based = r.based ∙ v.based;
    }

module _ (intent_parse : CString → Option Intent) (known_model : CString → Bool) where
  read_dropins-IsSeen :
      (d : Disk) (names : List CString) (st : Store)
      → length st.files + length names ≤ max_files
      → All (λ n. prints n ≡ true) names
      → IsSeen d st
      → IsSeen d (read_dropins intent_parse known_model d names st)
  unfolding read_dropins
  read_dropins-IsSeen d [] st few short v = v
  read_dropins-IsSeen d (n ∷ ns) st few short v =
      let st' = read_dropin intent_parse known_model d n st in
      let r = read_dropin-Read intent_parse known_model d n st (omega arith) short.0 in
      read_dropins-IsSeen d ns st' (longer-few (length ns) st st' r (omega arith)) short.1
        (Read-IsSeen d (opens (d.fopen (label_of n))) (label_of n) st st' r v)

  say_overflow-IsSeen : (d : Disk) (st : Store) → IsSeen d st → IsSeen d (say_overflow st)
  say_overflow-IsSeen d st v = elim (Bool-cases (st.files_overflow == 0)) [
    | inl all ↦ rw all v
    | inr more ↦
        rw more
          (record { seen = v.seen; first = v.first; many = v.many; dir = v.dir; based = v.based })
  ]

  load_entries-IsSeen :
      (d : Disk) (entries : Option (List CString)) (st : Store)
      → length st.files ≤ 1
      → IsSeen d st
      → IsSeen d (load_entries intent_parse known_model d entries st)
  load_entries-IsSeen d none st few v = v
  load_entries-IsSeen d (some entries) st few v =
      let (names, over) = collect entries [] st.files_overflow in
      let begun = record st { files_overflow = over } in
      let r = sorted-IsRead entries st.files_overflow in
      let short = r.few in
      say_overflow-IsSeen d (read_dropins intent_parse known_model d (sort names) begun) (
        read_dropins-IsSeen d (sort names) begun (omega arith) r.short
          (record { seen = v.seen; first = v.first; many = v.many; dir = v.dir; based = v.based }))

  pub load-IsSeen :
      (d : Disk) → opens (d.fopen conf_file) ≡ true → IsSeen d (load intent_parse known_model d)
  unfolding load load_dropins
  load-IsSeen d can =
      let (st, read) = read_one intent_parse known_model d conf_file 0 started in
      let r = first-Read intent_parse known_model d in
      let begun = record st { present = read; stamp_dir = d.stat dropin_dir } in
      let files : st.files ≡ conf_file ∷ [] = rw can at r.files in
      let v = load_entries-IsSeen d d.entries begun (rw files (omega arith)) (record {
        seen = rw (r.stamps, files) (refl, tt);
        first = rw r.stamps refl;
        many = rw files (omega arith);
        dir = refl;
        based = r.based;
      }) in
      record { seen = v.seen; first = v.first; many = v.many; dir = v.dir; based = v.based }

  IsSeen-still : (d : Disk) (st : Store) → IsSeen d st → has_moved d st ≡ false
  IsSeen-still d st v =
      rw (moved-same d conf_file (st.stamps 0) v.first, moved-same d dropin_dir st.stamp_dir v.dir)
        (any_moved-Seen d st.stamps 0 st.files v.seen)

  -- Where the hand-written file can be opened and nothing has changed since the load, a refresh changes
  -- nothing and opens nothing, whatever drop-ins there are and whichever of them could be read.
  pub refresh-still :
      (d : Disk)
      → opens (d.fopen conf_file) ≡ true
      → refresh intent_parse known_model d (load intent_parse known_model d)
        ≡ (load intent_parse known_model d, false)
  unfolding refresh
  refresh-still d can =
      let v = load-IsSeen d can in rw (v.based, IsSeen-still d (load intent_parse known_model d) v)

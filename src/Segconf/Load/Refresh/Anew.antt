-- ===== src/Segconf/Load/Refresh/Anew.antt =====
-- A refresh without a hand-written file (src/reac_segconf.c).
use reac_pw.Prelude.{
  ℕ, suc, ◌+◌, ◌≤◌, ◌≡◌, refl, ◌∙◌, inl, inr, Bool, true, false, ◌||◌, Option, none, some, List, [],
  ◌∷◌, ◌++◌, arith, length, ◌==◌, Bool-cases, All,
}
use reac_pw.Prelude.Bytes.{CString}
use reac_pw.Segconf.{Intent, conf_file}
use reac_pw.Segconf.Load.{
  started, Stamp, Disk, Store, max_files, dropin_dir, stamps_with, prints, label_of, collect, sort,
  read_one, read_dropin, read_dropins, say_overflow, load_entries, load_dropins, load, moved,
  refresh,
}
use reac_pw.Segconf.Load.Order.{sorted-IsRead}
use reac_pw.Segconf.Load.Files.{
  opens, label_if, Read, label_if-few, longer-few, read_dropin-Read, first-Read,
}
use reac_pw.Segconf.Load.Refresh.{is_there, differs-there}

-- Either no file was opened, or the first stamp is that of a file that is there.
abbrev pub is_none : List CString → Bool
is_none [] = true
is_none (f ∷ fs) = false

pub record IsOverlaid (st : Store) : Type 0 where
  pub overlaid : (is_none st.files || is_there (st.stamps 0)) ≡ true
  pub based : st.based ≡ true

-- What can be opened is there.
abbrev pub IsDisk : Disk → Type 0
IsDisk d = (label : CString) → opens (d.fopen label) ≡ true → is_there (d.stat label) ≡ true

overlaid_step :
    (files : List CString) (opened : Bool) (label : CString) (stamps : ℕ → Option Stamp)
    (s : Option Stamp)
    → (opened ≡ true → is_there s ≡ true)
    → (is_none files || is_there (stamps 0)) ≡ true
    → (is_none (files ++ label_if opened label) || is_there (stamps_with stamps (length files) s 0))
      ≡ true
overlaid_step [] true label stamps s there h = there refl
overlaid_step [] false label stamps s there h = refl
overlaid_step (f ∷ fs) opened label stamps s there h =
    let behind : (0 == suc (length fs)) ≡ false = ground arith in rw behind h

Read-IsOverlaid :
    (opened : Bool) (label : CString) (stamp : Option Stamp) (st st' : Store)
    → (opened ≡ true → is_there stamp ≡ true)
    → Read opened label stamp (length st.files) st st'
    → IsOverlaid st
    → IsOverlaid st'
Read-IsOverlaid opened label stamp st st' there r v = record {
  overlaid =
      rw (r.files, r.stamps) (overlaid_step st.files opened label st.stamps stamp there v.overlaid);
  based = r.based ∙ v.based;
}

module _ (intent_parse : CString → Option Intent) (known_model : CString → Bool) where
  read_dropins-IsOverlaid :
      (d : Disk) (names : List CString) (st : Store)
      → IsDisk d
      → length st.files + length names ≤ max_files
      → All (λ n. prints n ≡ true) names
      → IsOverlaid st
      → IsOverlaid (read_dropins intent_parse known_model d names st)
  unfolding read_dropins
  read_dropins-IsOverlaid d [] st disk few short v = v
  read_dropins-IsOverlaid d (n ∷ ns) st disk few short v =
      let st' = read_dropin intent_parse known_model d n st in
      let r = read_dropin-Read intent_parse known_model d n st (omega arith) short.0 in
      let label = label_of n in
      read_dropins-IsOverlaid d ns st' disk (longer-few (length ns) st st' r (omega arith)) short.1
        (Read-IsOverlaid (opens (d.fopen label)) label (d.stat label) st st' (disk label) r v)

  say_overflow-IsOverlaid : (st : Store) → IsOverlaid st → IsOverlaid (say_overflow st)
  say_overflow-IsOverlaid st v = elim (Bool-cases (st.files_overflow == 0)) [
    | inl all ↦ rw all v
    | inr more ↦ rw more (record { overlaid = v.overlaid; based = v.based })
  ]

  load_entries-IsOverlaid :
      (d : Disk) (entries : Option (List CString)) (st : Store)
      → IsDisk d
      → length st.files ≤ 1
      → IsOverlaid st
      → IsOverlaid (load_entries intent_parse known_model d entries st)
  load_entries-IsOverlaid d none st disk few v = v
  load_entries-IsOverlaid d (some entries) st disk few v =
      let (names, over) = collect entries [] st.files_overflow in
      let begun = record st { files_overflow = over } in
      let r = sorted-IsRead entries st.files_overflow in
      let short = r.few in
      say_overflow-IsOverlaid (read_dropins intent_parse known_model d (sort names) begun) (
        read_dropins-IsOverlaid d (sort names) begun disk (omega arith) r.short
          (record { overlaid = v.overlaid; based = v.based }))

  load-IsOverlaid : (d : Disk) → IsDisk d → IsOverlaid (load intent_parse known_model d)
  unfolding load load_dropins
  load-IsOverlaid d disk =
      let (st, read) = read_one intent_parse known_model d conf_file 0 started in
      let r = first-Read intent_parse known_model d in
      let begun = record st { present = read; stamp_dir = d.stat dropin_dir } in
      let w =
        Read-IsOverlaid (opens (d.fopen conf_file)) conf_file (d.stat conf_file) started st
          (disk conf_file) r (record { overlaid = refl; based = refl }) in
      let v =
        load_entries-IsOverlaid d d.entries begun disk
          (rw r.files (label_if-few (opens (d.fopen conf_file)) conf_file))
          (record { overlaid = w.overlaid; based = w.based }) in
      record { overlaid = v.overlaid; based = v.based }

  overlaid-moved :
      (d : Disk) (st : Store)
      → d.stat conf_file ≡ none
      → is_none st.files ≡ false
      → IsOverlaid st
      → moved d conf_file (st.stamps 0) ≡ true
  unfolding moved
  overlaid-moved d st gone some_file v =
      rw gone (differs-there (st.stamps 0) (rw some_file at v.overlaid))

  -- Without a hand-written file the first drop-in that is read takes its stamp's place, so that a refresh
  -- of a configuration that has drop-ins loads it anew although nothing has changed: on a disk where
  -- what can be opened is there.
  pub refresh-anew :
      (d : Disk)
      → IsDisk d
      → d.stat conf_file ≡ none
      → is_none (load intent_parse known_model d).files ≡ false
      → refresh intent_parse known_model d (load intent_parse known_model d)
        ≡ (load intent_parse known_model d, true)
  unfolding refresh
  refresh-anew d disk gone some_file =
      let v = load-IsOverlaid d disk in
      rw (v.based, overlaid-moved d (load intent_parse known_model d) gone some_file v)

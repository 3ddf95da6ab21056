-- ===== src/Segconf/Load/Sound.antt =====
-- What a load from the disk keeps of the table, whatever the disk answers (src/reac_segconf.c).
use reac_pw.Prelude.{
  ℕ, ◌-◌, ◌≤◌, ◌≡◌, Bool, true, false, Option, none, some, List, [], ◌∷◌, ◌++◌, arith, ltb→lt,
  length-append, length, take, leb, ltb, ◌==◌, Bool-cases, inl, inr, All,
}
use reac_pw.Prelude.Bytes.{CString}
use reac_pw.Segconf.{
  Conf, Intent, Reason, refuse, conf_file, out_of_memory, larger_than_room, not_readable,
  files_past_bound,
}
use reac_pw.Segconf.Parse.{cross_check}
use reac_pw.Segconf.Bounds.{IsConf, refuse-IsConf}
use reac_pw.Segconf.Bounds.Files.{parse_file-IsConf, init-IsConf}
use reac_pw.Segconf.Cross.{
  IsConsistent, Mended-IsConsistent, cross_check-AllMended, cross_check-IsConf,
}
use reac_pw.Segconf.Load.{
  Disk, Store, Opened, missing, starved, holds, max_files, started, stamps_with, to_nul, text_room,
  reading_at, label_of, listed, dropin_dir, collect, sort, parsed, opened_as, read_one, told_unread,
  overflowed, read_dropin, read_dropins, say_overflow, load_entries, load_dropins, load,
  checked_store,
}

module _ (known_model : CString → Bool) where
  -- The table is kept well, and the files read are within their bound.
  pub record IsStore (st : Store) : Type 0 where
    pub table : IsConf known_model st.conf
    pub few : length st.files ≤ max_files

  abbrev pub Loaded : Store → Type 0
  Loaded st = IsStore st × All IsConsistent st.conf.segments

module _ (intent_parse : CString → Option Intent) (known_model : CString → Bool) where
  reading-IsConf :
      (label : CString) (c : Conf) → IsConf known_model c → IsConf known_model (reading_at label c)
  reading-IsConf label c v = record {
    few = v.few;
    kept = v.kept;
    entries = v.entries;
    distinct = v.distinct;
  }

  refused-IsConf :
      (label : CString) (c : Conf) (r : Reason)
      → IsConf known_model c
      → IsConf known_model (refuse (reading_at label c) 0 r)
  refused-IsConf label c r v =
      refuse-IsConf known_model (reading_at label c) 0 r (reading-IsConf label c v)

  parsed-IsConf :
      (label : CString) (bytes : List ℕ) (c : Conf)
      → IsConf known_model c
      → IsConf known_model (parsed intent_parse known_model label bytes c)
  parsed-IsConf label bytes c v = elim (Bool-cases (leb text_room (length bytes))) [
    | inl large ↦ rw large (
        parse_file-IsConf intent_parse known_model (refuse (reading_at label c) 0 larger_than_room)
          (to_nul (take (text_room - 1) bytes)) label (refused-IsConf label c larger_than_room v))
    | inr fits ↦ rw fits (
        parse_file-IsConf intent_parse known_model (reading_at label c)
          (to_nul (take (text_room - 1) bytes)) label (reading-IsConf label c v))
  ]

  listed-IsStore :
      (label : CString) (st : Store)
      → IsStore known_model st
      → IsStore known_model (listed label st)
  listed-IsStore label st v = elim (Bool-cases (ltb (length st.files) max_files)) [
    | inl room ↦ rw room (record { table = v.table; few = longer room })
    | inr full ↦ rw full v
  ]
    where
      longer :
          ltb (length st.files) max_files ≡ true
          → length (st.files ++ take 95 label ∷ []) ≤ max_files
      longer room =
          let few = ltb→lt (length st.files) max_files room in
          omega (arith, length-append st.files (take 95 label ∷ []))

  opened_as-IsStore :
      (label : CString) (o : Opened) (st : Store)
      → IsStore known_model st
      → IsStore known_model (opened_as intent_parse known_model label o st).0
  opened_as-IsStore label missing st v = v
  opened_as-IsStore label starved st v =
      let l = listed-IsStore label st v in
      record {
        table = refused-IsConf label (listed label st).conf out_of_memory l.table;
        few = l.few;
      }
  opened_as-IsStore label (holds bytes) st v =
      let l = listed-IsStore label st v in
      record { table = parsed-IsConf label bytes (listed label st).conf l.table; few = l.few }

  read_one-IsStore :
      (d : Disk) (label : CString) (slot : ℕ) (st : Store)
      → IsStore known_model st
      → IsStore known_model (read_one intent_parse known_model d label slot st).0
  unfolding read_one
  read_one-IsStore d label slot st v =
      opened_as-IsStore label (d.fopen label)
        (record st { stamps = stamps_with st.stamps slot (d.stat label) })
        (record { table = v.table; few = v.few })

  told_unread-IsStore :
      (label : CString) (r : Store × Bool)
      → IsStore known_model r.0
      → IsStore known_model (told_unread label r)
  told_unread-IsStore label (st, true) v = v
  told_unread-IsStore label (st, false) v = record {
    table = refused-IsConf label st.conf not_readable v.table;
    few = v.few;
  }

  read_dropins-IsStore :
      (d : Disk) (names : List CString) (st : Store)
      → IsStore known_model st
      → IsStore known_model (read_dropins intent_parse known_model d names st)
  unfolding read_dropins read_dropin
  read_dropins-IsStore d [] st v = v
  read_dropins-IsStore d (name ∷ names) st v = elim (Bool-cases (leb max_files (length st.files))) [
    | inl full ↦
        rw full
          (read_dropins-IsStore d names (overflowed st) (record { table = v.table; few = v.few }))
    | inr room ↦
        let read = read_one intent_parse known_model d (label_of name) (length st.files) st in
        rw room (
          read_dropins-IsStore d names (told_unread (label_of name) read) (
            told_unread-IsStore (label_of name) read
              (read_one-IsStore d (label_of name) (length st.files) st v)))
  ]

  say_overflow-IsStore :
      (st : Store) → IsStore known_model st → IsStore known_model (say_overflow st)
  say_overflow-IsStore st v = elim (Bool-cases (st.files_overflow == 0)) [
    | inl all ↦ rw all v
    | inr more ↦ rw more (record {
      table = refuse-IsConf known_model st.conf 0 (files_past_bound st.files_overflow) v.table;
      few = v.few;
    })
  ]

  load_entries-IsStore :
      (d : Disk) (entries : Option (List CString)) (st : Store)
      → IsStore known_model st
      → IsStore known_model (load_entries intent_parse known_model d entries st)
  load_entries-IsStore d none st v = v
  load_entries-IsStore d (some entries) st v =
      let (names, over) = collect entries [] st.files_overflow in
      let begun = record st { files_overflow = over } in
      say_overflow-IsStore (read_dropins intent_parse known_model d (sort names) begun)
        (read_dropins-IsStore d (sort names) begun (record { table = v.table; few = v.few }))

  checked_store-Loaded :
      (st : Store) → IsStore known_model st → Loaded known_model (checked_store st)
  checked_store-Loaded st v = (
    record { table = cross_check-IsConf known_model st.conf v.table; few = v.few },
    Mended-IsConsistent st.conf.segments (cross_check st.conf).segments
        (cross_check-AllMended st.conf),
  )

  blank-IsStore : IsStore known_model started
  blank-IsStore = record { table = init-IsConf intent_parse known_model; few = omega arith }

  -- Whatever the configuration's directory holds and whatever the system answers about it, a load keeps
  -- at most 32 segments, each once and with a name that an interface can have, and at most 8 refusals; a
  -- segment has a model exactly where its role is `box`, and then one that the catalogue knows; and at
  -- most 17 files are read.
  pub load-Loaded : (d : Disk) → Loaded known_model (load intent_parse known_model d)
  unfolding load load_dropins
  load-Loaded d =
      let (st, read) = read_one intent_parse known_model d conf_file 0 started in
      let first = read_one-IsStore d conf_file 0 started blank-IsStore in
      let begun = record st { present = read; stamp_dir = d.stat dropin_dir } in
      checked_store-Loaded (load_entries intent_parse known_model d d.entries begun)
        (load_entries-IsStore d d.entries begun (record { table = first.table; few = first.few }))

-- ===== src/Segconf/Load/Refresh/Fresh.antt =====
-- A refresh leaves what a load would make of the disk as it is now (src/reac_segconf.c).
use reac_pw.Prelude.{
  ℕ, suc, ◌≡◌, refl, sym, ap, ◌∙◌, ◌⊎◌, inl, inr, Bool, true, false, Option, none, some, List, [],
  ◌∷◌, arith, Bool-cases, All,
}
use reac_pw.Prelude.Bytes.{CString, str_eq}
use reac_pw.Segconf.{Intent, conf_file}
use reac_pw.Segconf.Load.{
  Stamp, Disk, Store, dropin_dir, label_of, collect, sort, started, read_one, read_dropin,
  read_dropins, load_entries, load_dropins, load, differs, moved, any_moved, has_moved, refresh,
  say_overflow, checked_store,
}
use reac_pw.Segconf.Load.Order.{names_in}
use reac_pw.Segconf.Load.Files.{opens, opened_labels, first-Read, loaded-files}
use reac_pw.Segconf.Load.Refresh.{Seen}
use reac_pw.Segconf.Load.Refresh.Still.{IsSeen, load-IsSeen}

differs→eq : (a b : Option Stamp) → differs a b ≡ false → a ≡ b
differs→eq none none h = refl
differs→eq none (some t) h = absurd cc
differs→eq (some s) none h = absurd cc
differs→eq (some s) (some t) h = ground arith

-- The disk says the same of a label, then and now.
abbrev pub Agrees : Disk → Disk → CString → Type 0
Agrees d d' label = d.stat label ≡ d'.stat label

still-Agrees :
    (d d' : Disk) (label : CString) (s : Option Stamp)
    → s ≡ d.stat label
    → moved d' label s ≡ false
    → Agrees d d' label
unfolding moved
still-Agrees d d' label s e h = sym e ∙ sym (differs→eq (d'.stat label) s h)

-- The hand-written file, or a file that looks as it did.
abbrev pub Settled : Disk → Disk → CString → Type 0
Settled d d' f = (str_eq f conf_file ≡ true) ⊎ Agrees d d' f

any_moved-Settled :
    (d d' : Disk) (stamps : ℕ → Option Stamp) (i : ℕ) (files : List CString)
    → Seen d stamps i files
    → any_moved d' stamps i files ≡ false
    → All (Settled d d') files
unfolding any_moved
any_moved-Settled d d' stamps i [] s h = tt
any_moved-Settled d d' stamps i (f ∷ fs) s h = elim (Bool-cases (str_eq f conf_file)) [
  | inl conf ↦ (inl conf, any_moved-Settled d d' stamps (suc i) fs s.1 (rw conf at h))
  | inr dropin ↦
      let h' = rw dropin at h in
      let this : moved d' f (stamps i) ≡ false = ground arith in
      let rest : any_moved d' stamps (suc i) fs ≡ false = ground arith in
      (
        inr (still-Agrees d d' f (stamps i) s.0 this),
        any_moved-Settled d d' stamps (suc i) fs s.1 rest,
      )
]

-- What a file holds goes with its stamp, and the directory's names go with its own.
pub record IsTold (d d' : Disk) : Type 0 where
  pub files : (label : CString) → Agrees d d' label → d.fopen label ≡ d'.fopen label
  pub names : Agrees d d' dropin_dir → d.entries ≡ d'.entries

abbrev pub AllOpen : Disk → List CString → Type 0
AllOpen d names = All (λ n. opens (d.fopen (label_of n)) ≡ true) names

dropin-Agrees : (d d' : Disk) (n : CString) → Settled d d' (label_of n) → Agrees d d' (label_of n)
dropin-Agrees d d' n (inl conf) = absurd cc
dropin-Agrees d d' n (inr same) = same

labels-Agrees :
    (d d' : Disk) (names : List CString)
    → AllOpen d names
    → All (Settled d d') (opened_labels d names)
    → All (λ n. Agrees d d' (label_of n)) names
labels-Agrees d d' [] o s = tt
labels-Agrees d d' (n ∷ ns) o s =
    let s' = rw o.0 at s in (dropin-Agrees d d' n s'.0, labels-Agrees d d' ns o.1 s'.1)

module _ (intent_parse : CString → Option Intent) (known_model : CString → Bool) where
  read_dropins-same :
      (d d' : Disk) (names : List CString) (st : Store)
      → IsTold d d'
      → All (λ n. Agrees d d' (label_of n)) names
      → read_dropins intent_parse known_model d names st
        ≡ read_dropins intent_parse known_model d' names st
  unfolding read_dropins read_dropin read_one
  read_dropins-same d d' [] st t a = refl
  read_dropins-same d d' (n ∷ ns) st t a =
      rw (a.0, t.files (label_of n) a.0)
        (read_dropins-same d d' ns (read_dropin intent_parse known_model d' n st) t a.1)

  load_entries-same :
      (d d' : Disk) (entries : Option (List CString)) (st : Store)
      → st.files_overflow ≡ 0
      → IsTold d d'
      → All (λ n. Agrees d d' (label_of n)) (names_in entries)
      → load_entries intent_parse known_model d entries st
        ≡ load_entries intent_parse known_model d' entries st
  load_entries-same d d' none st e t a = refl
  load_entries-same d d' (some entries) st e t a =
      let (names, over) = collect entries [] st.files_overflow in
      let a' : All (λ n. Agrees d d' (label_of n)) (sort names) = rw e a in
      ap say_overflow
        (read_dropins-same d d' (sort names) (record st { files_overflow = over }) t a')

  load_dropins-same :
      (d d' : Disk) (st : Store)
      → st.files_overflow ≡ 0
      → IsTold d d'
      → Agrees d d' dropin_dir
      → All (λ n. Agrees d d' (label_of n)) (names_in d.entries)
      → load_dropins intent_parse known_model d st ≡ load_dropins intent_parse known_model d' st
  unfolding load_dropins
  load_dropins-same d d' st o t e a =
      load_entries-same d d' d.entries (record st { stamp_dir = d.stat dropin_dir }) o t a
      ∙ rw (e, t.names e)

  abbrev finished : Disk → Store × Bool → Store
  finished d (st, read) =
      checked_store (load_dropins intent_parse known_model d (record st { present = read }))

  load-finished :
      (d : Disk)
      → load intent_parse known_model d
        ≡ finished d (read_one intent_parse known_model d conf_file 0 started)
  unfolding load
  load-finished d = refl

  read_one-same :
      (d d' : Disk)
      → IsTold d d'
      → Agrees d d' conf_file
      → read_one intent_parse known_model d conf_file 0 started
        ≡ read_one intent_parse known_model d' conf_file 0 started
  unfolding read_one
  read_one-same d d' t c = rw (c, t.files conf_file c)

  load-same :
      (d d' : Disk)
      → IsTold d d'
      → Agrees d d' conf_file
      → Agrees d d' dropin_dir
      → All (λ n. Agrees d d' (label_of n)) (names_in d.entries)
      → load intent_parse known_model d ≡ load intent_parse known_model d'
  load-same d d' t c e a =
      let (st, read) = read_one intent_parse known_model d conf_file 0 started in
      let r = first-Read intent_parse known_model d in
      load-finished d
      ∙ ap checked_store (load_dropins-same d d' (record st { present = read }) r.overflow t e a)
      ∙ ap (finished d') (read_one-same d d' t c)
      ∙ sym (load-finished d')

  IsSeen-same :
      (d d' : Disk) (st : Store)
      → IsSeen d st
      → st.files ≡ conf_file ∷ opened_labels d (names_in d.entries)
      → AllOpen d (names_in d.entries)
      → IsTold d d'
      → has_moved d' st ≡ false
      → load intent_parse known_model d ≡ load intent_parse known_model d'
  IsSeen-same d d' st v f all t h =
      let conf : moved d' conf_file (st.stamps 0) ≡ false = ground arith in
      let dir : moved d' dropin_dir st.stamp_dir ≡ false = ground arith in
      let files : any_moved d' st.stamps 0 st.files ≡ false = ground arith in
      let settled = any_moved-Settled d d' st.stamps 0 st.files v.seen files in
      let settled' : All (Settled d d') (conf_file ∷ opened_labels d (names_in d.entries)) =
        rw f at settled in
      load-same d d' t (still-Agrees d d' conf_file (st.stamps 0) v.first conf)
        (still-Agrees d d' dropin_dir st.stamp_dir v.dir dir)
        (labels-Agrees d d' (names_in d.entries) all settled'.1)

  refreshed :
      (d' : Disk) (st : Store)
      → st.based ≡ true
      → (has_moved d' st ≡ false → st ≡ load intent_parse known_model d')
      → (refresh intent_parse known_model d' st).0 ≡ load intent_parse known_model d'
  unfolding refresh
  refreshed d' st b k = elim (Bool-cases (has_moved d' st)) [
    | inl moves ↦ ground arith
    | inr still ↦ let same = k still in ground arith
  ]

  -- Where a load could open the hand-written file and every drop-in that it went to read, and where what
  -- a file holds goes with its stamp, and the directory's names with its own: a refresh, whatever has
  -- happened to the disk since the load, leaves exactly the configuration that a load of the disk as it is
  -- now makes, so that nothing written to it since is missed.
  pub refresh-fresh :
      (d d' : Disk)
      → opens (d.fopen conf_file) ≡ true
      → AllOpen d (names_in d.entries)
      → IsTold d d'
      → (refresh intent_parse known_model d' (load intent_parse known_model d)).0
        ≡ load intent_parse known_model d'
  refresh-fresh d d' can all t =
      let v = load-IsSeen intent_parse known_model d can in
      let f = (loaded-files intent_parse known_model d) in
      refreshed d' (load intent_parse known_model d) v.based
        (IsSeen-same d d' (load intent_parse known_model d) v (rw can at f) all t)

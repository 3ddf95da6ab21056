-- ===== src/Segconf/Bounds/Files.antt =====
-- The table's invariant over keys, lines and files (src/reac_segconf.c).
use reac_pw.Prelude.{
  ℕ, ◌+◌, ◌-◌, refl, inl, inr, Bool, true, false, Option, none, some, List, [], ◌∷◌, arith, length,
  take, Bool-cases, if◌then◌else◌, leb, ◌==◌,
}
use reac_pw.Prelude.Words.{u32}
use reac_pw.Prelude.Bytes.{CString, codes}
use reac_pw.Segconf.{
  Conf, Cursor, State, Intent, no_key_value, outside_section, bad_role, bad_model, bad_ignore,
  knock_retired, unknown_key, line_too_long, init, refuse, update, line_room, file_len, model_len,
}
use reac_pw.Segconf.Text.{
  trim, strip_comment, unquote, split_first, fold_case, case_eq, lines, parse_bool,
}
use reac_pw.Segconf.Parse.{
  with_role, with_model, with_ignore, role_key, ignore_key, key_value, assignment, content, header,
  parse_line, parse_lines, parse_file,
}
use reac_pw.Segconf.Bounds.{IsConf, refuse-IsConf, update-IsConf, closed_section-IsConf}

module _ (intent_parse : CString → Option Intent) (known_model : CString → Bool) where
  role_key-IsConf :
      (c : Conf) (line : ℕ) (cur : Cursor) (val : CString) (i : Option Intent)
      → IsConf known_model c
      → IsConf known_model (role_key c line cur val i)
  role_key-IsConf c line cur val none v = refuse-IsConf known_model c line (bad_role cur.name val) v
  role_key-IsConf c line cur val (some i) v =
      update-IsConf known_model c cur.at (with_role c.reading i) (λ s. refl)
        (λ s g. record { short = g.short; known = g.known }) v

  ignore_key-IsConf :
      (c : Conf) (line : ℕ) (cur : Cursor) (val : CString) (b : Option Bool)
      → IsConf known_model c
      → IsConf known_model (ignore_key c line cur val b)
  ignore_key-IsConf c line cur val none v =
      refuse-IsConf known_model c line (bad_ignore cur.name val) v
  ignore_key-IsConf c line cur val (some b) v =
      update-IsConf known_model c cur.at (with_ignore c.reading b) (λ s. refl)
        (λ s g. record { short = g.short; known = g.known }) v

  abbrev model_key : Conf → ℕ → Cursor → CString → CString → Conf
  model_key c line cur val low =
      if known_model low
      then update c cur.at (with_model c.reading low)
      else refuse c line (bad_model cur.name val)

  model_key-IsConf :
      (c : Conf) (line : ℕ) (cur : Cursor) (val low : CString)
      → IsConf known_model c
      → IsConf known_model (model_key c line cur val low)
  model_key-IsConf c line cur val low v = elim (Bool-cases (known_model low)) [
    | inl yes_known ↦ rw yes_known (
        update-IsConf known_model c cur.at (with_model c.reading low) (λ s. refl)
          (λ s g. record { short = g.short; known = λ e. yes_known }) v)
    | inr unknown ↦ rw unknown (refuse-IsConf known_model c line (bad_model cur.name val) v)
  ]

  pick-IsConf :
      (b : Bool) {c d : Conf}
      → IsConf known_model c
      → IsConf known_model d
      → IsConf known_model (if b then c else d)
  pick-IsConf true v w = v
  pick-IsConf false v w = w

  key_value-IsConf :
      (c : Conf) (line : ℕ) (cur : Cursor) (key val : CString)
      → IsConf known_model c
      → IsConf known_model (key_value intent_parse known_model c line cur key val)
  unfolding key_value
  key_value-IsConf c line cur key val v =
      pick-IsConf (case_eq key (codes "role"))
        (role_key-IsConf c line cur val (intent_parse (take 63 (fold_case val))) v)
        (pick-IsConf (case_eq key (codes "model"))
          (model_key-IsConf c line cur val (take (model_len - 1) (fold_case val)) v)
          (pick-IsConf (case_eq key (codes "ignore"))
            (ignore_key-IsConf c line cur val (parse_bool val) v)
            (pick-IsConf (case_eq key (codes "knock"))
              (refuse-IsConf known_model c line (knock_retired cur.name (take 24 val)) v)
              (refuse-IsConf known_model c line (unknown_key cur.name key) v))))

  assignment-IsConf :
      (c : Conf) (line : ℕ) (cur : Option Cursor) (text : CString)
      (cut : Option (CString × CString))
      → IsConf known_model c
      → IsConf known_model (assignment intent_parse known_model c line cur text cut).0
  assignment-IsConf c line cur text none v = refuse-IsConf known_model c line (no_key_value text) v
  assignment-IsConf c line none text (some (key, val)) v =
      refuse-IsConf known_model c line (outside_section (trim key)) v
  assignment-IsConf c line (some cur) text (some (key, val)) v =
      key_value-IsConf c line cur (trim key) (unquote (trim val)) v

  pick_state-IsConf :
      (b : Bool) (x y : State)
      → IsConf known_model x.0
      → IsConf known_model y.0
      → IsConf known_model (if b then x else y).0
  pick_state-IsConf true x y v w = v
  pick_state-IsConf false x y v w = w

  content-IsConf :
      (c : Conf) (line : ℕ) (cur : Option Cursor) (text : CString)
      → IsConf known_model c
      → IsConf known_model (content intent_parse known_model c line cur text).0
  unfolding header
  content-IsConf c line cur [] v = v
  content-IsConf c line cur (b ∷ text) v =
      pick_state-IsConf (b == b'[') _ _
        (closed_section-IsConf known_model c line (b'[' ∷ text) (split_first b']' text) v)
        (assignment-IsConf c line cur (b ∷ text) (split_first b'=' (b ∷ text)) v)

  parse_line-IsConf :
      (c : Conf) (line : ℕ) (cur : Option Cursor) (raw : CString)
      → IsConf known_model c
      → IsConf known_model (parse_line intent_parse known_model c line cur raw).0
  unfolding parse_line
  parse_line-IsConf c line cur raw v =
      pick_state-IsConf (leb line_room (length raw)) _ _
        (refuse-IsConf known_model c line line_too_long v)
        (content-IsConf c line cur (trim (strip_comment raw)) v)

  parse_lines-IsConf :
      (c : Conf) (line : ℕ) (cur : Option Cursor) (raws : List CString)
      → IsConf known_model c
      → IsConf known_model (parse_lines intent_parse known_model c line cur raws)
  unfolding parse_lines
  parse_lines-IsConf c line cur [] v = v
  parse_lines-IsConf c line cur (raw ∷ rest) v =
      let (c', cur') = parse_line intent_parse known_model c (line + 1) cur raw in
      parse_lines-IsConf c' (line + 1) cur' rest (parse_line-IsConf c (line + 1) cur raw v)

  pub parse_file-IsConf :
      (c : Conf) (text label : CString)
      → IsConf known_model c
      → IsConf known_model (parse_file intent_parse known_model c text label)
  unfolding parse_file
  parse_file-IsConf c text label v =
      parse_lines-IsConf (record c { reading = take (file_len - 1) label; gen = u32 (c.gen + 1) }) 0
        none (lines text)
        (record { few = v.few; kept = v.kept; entries = v.entries; distinct = v.distinct })

  -- The files of a configuration, read one after another: each its text and its label.
  abbrev pub parse_files : Conf → List (CString × CString) → Conf
  parse_files c [] = c
  parse_files c ((text, label) ∷ files) =
      parse_files (parse_file intent_parse known_model c text label) files

  pub parse_files-IsConf :
      (c : Conf) (files : List (CString × CString))
      → IsConf known_model c
      → IsConf known_model (parse_files c files)
  parse_files-IsConf c [] v = v
  parse_files-IsConf c ((text, label) ∷ files) v =
      parse_files-IsConf (parse_file intent_parse known_model c text label) files
        (parse_file-IsConf c text label v)

  pub init-IsConf : IsConf known_model init
  unfolding init
  init-IsConf = record { few = omega arith; kept = omega arith; entries = tt; distinct = tt }

-- ===== src/Segconf/Frame/Lines.antt =====
-- The frame of a file, over keys, lines and files (src/reac_segconf.c).
use reac_pw.Prelude.{
  ℕ, ◌+◌, ◌-◌, ◌≡◌, refl, ◌≢◌, inl, inr, Bool, true, false, Option, none, some, List, [], ◌∷◌,
  length, take, All, Bool-cases, if◌then◌else◌, leb, ◌==◌,
}
use reac_pw.Prelude.Words.{u32}
use reac_pw.Prelude.Bytes.{CString, codes}
use reac_pw.Segconf.{
  Conf, Cursor, Segment, Intent, line_room, file_len, no_key_value, outside_section, line_too_long,
  model_len, bad_role, bad_model, bad_ignore, knock_retired, unknown_key,
}
use reac_pw.Segconf.Text.{
  trim, trim_start, strip_comment, split_first, unquote, lines, fold_case, case_eq, parse_bool,
}
use reac_pw.Segconf.Parse.{
  header, with_role, with_model, with_ignore, role_key, ignore_key, key_value, assignment, content,
  parse_line, parse_lines, parse_file, opens_section,
}
use reac_pw.Segconf.Queries.{find_in, find}
use reac_pw.Segconf.Frame.{opened, header_name}
use reac_pw.Segconf.Frame.Walk.{Apart, refuse-Apart, update-Apart, pick-Apart, closed_section-Apart}

module _ (intent_parse : CString → Option Intent) (known_model : CString → Bool) (n : CString)
    (before : List Segment) where
  key_value-Apart :
      (c : Conf) (line : ℕ) (cur : Cursor) (key val : CString)
      → Apart n before c.segments (some cur)
      → Apart n before (key_value intent_parse known_model c line cur key val).segments (some cur)
  unfolding key_value
  key_value-Apart c line cur key val a =
      pick-Apart n before (case_eq key (codes "role")) _ _ (some cur)
        (role_case (intent_parse (take 63 (fold_case val))))
        (pick-Apart n before (case_eq key (codes "model")) _ _ (some cur)
          (pick-Apart n before (known_model (take (model_len - 1) (fold_case val))) _ _ (some cur)
            (update-Apart n before c cur
              (with_model c.reading (take (model_len - 1) (fold_case val))) (λ t. refl) a)
            (refuse-Apart n before c line (bad_model cur.name val) (some cur) a))
          (pick-Apart n before (case_eq key (codes "ignore")) _ _ (some cur)
            (ignore_case (parse_bool val))
            (pick-Apart n before (case_eq key (codes "knock")) _ _ (some cur)
              (refuse-Apart n before c line (knock_retired cur.name (take 24 val)) (some cur) a)
              (refuse-Apart n before c line (unknown_key cur.name key) (some cur) a))))
    where
      role_case :
          (i : Option Intent) → Apart n before (role_key c line cur val i).segments (some cur)
      role_case none = refuse-Apart n before c line (bad_role cur.name val) (some cur) a
      role_case (some i) = update-Apart n before c cur (with_role c.reading i) (λ t. refl) a

      ignore_case :
          (b : Option Bool) → Apart n before (ignore_key c line cur val b).segments (some cur)
      ignore_case none = refuse-Apart n before c line (bad_ignore cur.name val) (some cur) a
      ignore_case (some b) = update-Apart n before c cur (with_ignore c.reading b) (λ t. refl) a

  assignment-Apart :
      (c : Conf) (line : ℕ) (cur : Option Cursor) (text : CString)
      (cut : Option (CString × CString))
      → Apart n before c.segments cur
      → let (c', cur') = assignment intent_parse known_model c line cur text cut in
        Apart n before c'.segments cur'
  assignment-Apart c line cur text none a = refuse-Apart n before c line (no_key_value text) cur a
  assignment-Apart c line none text (some (key, val)) a =
      refuse-Apart n before c line (outside_section (trim key)) none a
  assignment-Apart c line (some cur) text (some (key, val)) a =
      key_value-Apart c line cur (trim key) (unquote (trim val)) a

  content-Apart :
      (c : Conf) (line : ℕ) (cur : Option Cursor) (text : CString)
      → header_name text ≢ some n
      → Apart n before c.segments cur
      → let (c', cur') = content intent_parse known_model c line cur text in
        Apart n before c'.segments cur'
  unfolding header
  content-Apart c line cur [] ne a = a
  content-Apart c line cur (b ∷ text) ne a = elim (Bool-cases (b == b'[')) [
    | inl mark ↦ rw mark (
        closed_section-Apart n before c line (b'[' ∷ text) (split_first b']' text) (rw mark at ne)
          a.same)
    | inr key ↦ rw key (assignment-Apart c line cur (b ∷ text) (split_first b'=' (b ∷ text)) a)
  ]

  parse_line-Apart :
      (c : Conf) (line : ℕ) (cur : Option Cursor) (raw : CString)
      → opened raw ≢ some n
      → Apart n before c.segments cur
      → let (c', cur') = parse_line intent_parse known_model c line cur raw in
        Apart n before c'.segments cur'
  unfolding parse_line
  parse_line-Apart c line cur raw ne a = elim (Bool-cases (leb line_room (length raw))) [
    | inl long ↦
        rw long
          (refuse-Apart n before c line line_too_long _ (ended (opens_section (trim_start raw))))
    | inr fits ↦ rw fits (content-Apart c line cur (trim (strip_comment raw)) (rw fits at ne) a)
  ]
    where
      ended : (b : Bool) → Apart n before c.segments (if b then none else cur)
      ended true = record { same = a.same; away = tt }
      ended false = a

  parse_lines-Apart :
      (c : Conf) (line : ℕ) (cur : Option Cursor) (raws : List CString)
      → All (λ raw. opened raw ≢ some n) raws
      → Apart n before c.segments cur
      → find_in (parse_lines intent_parse known_model c line cur raws).segments n ≡ find_in before n
  unfolding parse_lines
  parse_lines-Apart c line cur [] ne a = a.same
  parse_lines-Apart c line cur (raw ∷ rest) ne a =
      let (c', cur') = parse_line intent_parse known_model c (line + 1) cur raw in
      parse_lines-Apart c' (line + 1) cur' rest ne.1 (parse_line-Apart c (line + 1) cur raw ne.0 a)

module _ (intent_parse : CString → Option Intent) (known_model : CString → Bool) where
  -- A file changes only the segments whose section it opens: about any other name the
  -- configuration holds after the file exactly what it held before, whatever the file says.
  pub find-parse_file :
      (c : Conf) (text label n : CString)
      → All (λ raw. opened raw ≢ some n) (lines text)
      → find (parse_file intent_parse known_model c text label) n ≡ find c n
  unfolding find parse_file
  find-parse_file c text label n ne =
      parse_lines-Apart intent_parse known_model n c.segments
        (record c { reading = take (file_len - 1) label; gen = u32 (c.gen + 1) }) 0 none
        (lines text) ne (record { same = refl; away = tt })

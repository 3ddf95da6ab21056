-- ===== src/Segconf/Parse.antt =====
-- The parser of src/reac_segconf.c: a header, a key, a line, a file, and the check across keys.
use reac_pw.Prelude.{
  ℕ, ◌+◌, ◌-◌, Bool, true, false, not, ◌&&◌, Option, none, some, List, [], ◌∷◌, ltb, leb, ◌==◌,
  if◌then◌else◌, length, take, drop,
}
use reac_pw.Prelude.Words.{u32}
use reac_pw.Prelude.Bytes.{CString, codes, str_eq}
use reac_pw.DeclaredVlan.{ifnamsiz}
use reac_pw.Segconf.{
  Conf, Cursor, State, Segment, Intent, auto, box, Reason, line_too_long, not_closed, text_after,
  unknown_section, names_nothing, name_too_long, no_key_value, outside_section, bad_role, bad_model,
  bad_ignore, knock_retired, unknown_key, model_without_box, box_without_model, refuse, index_of,
  update, open_section, conf_file, file_len, model_len, line_room,
}
use reac_pw.Segconf.Text.{
  blank, trim, trim_start, strip_comment, unquote, split_first, fold_case, case_eq, lines,
  parse_bool,
}

abbrev pub behind_blank : CString → Option CString
behind_blank [] = none
behind_blank (c ∷ s) = if blank c then some (trim (c ∷ s)) else none

-- The name behind the keyword `segment` and a blank, in any letter case of the keyword.
unfoldable pub segment_name : CString → Option CString
segment_name body =
    if str_eq (fold_case (take 7 body)) (codes "segment") then behind_blank (drop 7 body) else none

-- `[segment <name>]`, whose body has been cut out.
abbrev pub named_section : Conf → ℕ → CString → Option CString → State
named_section c line body none = (refuse c line (unknown_section body), none)
named_section c line body (some name) =
    if length name == 0
    then (refuse c line names_nothing, none)
    else if leb ifnamsiz (length name)
    then (refuse c line (name_too_long name), none)
    else open_section c line name (index_of c.segments name)

abbrev pub closed_section : Conf → ℕ → CString → Option (CString × CString) → State
closed_section c line text none = (refuse c line (not_closed text), none)
closed_section c line text (some (inner, rest)) =
    if ltb 0 (length rest)
    then (refuse c line (text_after text), none)
    else let body = trim inner in named_section c line body (segment_name body)

-- A line that begins with '['; `inner` stands behind it.
unfoldable pub header : Conf → ℕ → CString → State
header c line inner = closed_section c line (b'[' ∷ inner) (split_first b']' inner)

abbrev pub with_role : CString → Intent → Segment → Segment
with_role file i s = record s { role = i; role_set = true; role_file = file }

abbrev pub with_model : CString → CString → Segment → Segment
with_model file m s = record s { model = m; model_set = true; model_file = file }

abbrev pub with_ignore : CString → Bool → Segment → Segment
with_ignore file b s = record s { ignore = b; ignore_set = true; ignore_file = file }

abbrev pub role_key : Conf → ℕ → Cursor → CString → Option Intent → Conf
role_key c line cur val none = refuse c line (bad_role cur.name val)
role_key c line cur val (some i) = update c cur.at (with_role c.reading i)

abbrev pub ignore_key : Conf → ℕ → Cursor → CString → Option Bool → Conf
ignore_key c line cur val none = refuse c line (bad_ignore cur.name val)
ignore_key c line cur val (some b) = update c cur.at (with_ignore c.reading b)

abbrev pub opens_section : CString → Bool
opens_section [] = false
opens_section (b ∷ s) = b == b'['

module _ (intent_parse : CString → Option Intent) (known_model : CString → Bool) where
  -- A key and its value, inside the section `cur`. Values are folded into buffers of 64 and
  -- `model_len` bytes.
  unfoldable pub key_value : Conf → ℕ → Cursor → CString → CString → Conf
  key_value c line cur key val =
      if case_eq key (codes "role")
      then role_key c line cur val (intent_parse (take 63 (fold_case val)))
      else if case_eq key (codes "model")
      then (let low = take (model_len - 1) (fold_case val) in
          if known_model low
          then update c cur.at (with_model c.reading low)
          else refuse c line (bad_model cur.name val))
      else if case_eq key (codes "ignore")
      then ignore_key c line cur val (parse_bool val)
      else if case_eq key (codes "knock")
      then refuse c line (knock_retired cur.name (take 24 val))
      else refuse c line (unknown_key cur.name key)

  abbrev pub in_section : Conf → ℕ → Option Cursor → CString → CString → State
  in_section c line none key val = (refuse c line (outside_section key), none)
  in_section c line (some cur) key val = (key_value c line cur key val, some cur)

  abbrev pub assignment : Conf → ℕ → Option Cursor → CString → Option (CString × CString) → State
  assignment c line cur text none = (refuse c line (no_key_value text), cur)
  assignment c line cur text (some (key, val)) =
      in_section c line cur (trim key) (unquote (trim val))

  -- A line without its comment and its outer blanks.
  abbrev pub content : Conf → ℕ → Option Cursor → CString → State
  content c line cur [] = (c, cur)
  content c line cur (b ∷ text) =
      if b == b'['
      then header c line text
      else assignment c line cur (b ∷ text) (split_first b'=' (b ∷ text))

  -- One line of a file: too long to hold, or read.
  unfoldable pub parse_line : Conf → ℕ → Option Cursor → CString → State
  parse_line c line cur raw =
      if leb line_room (length raw)
      then (refuse c line line_too_long, if opens_section (trim_start raw) then none else cur)
      else content c line cur (trim (strip_comment raw))

  unfoldable pub parse_lines : Conf → ℕ → Option Cursor → List CString → Conf
  parse_lines c line cur [] = c
  parse_lines c line cur (raw ∷ rest) =
      let (c', cur') = parse_line c (line + 1) cur raw in parse_lines c' (line + 1) cur' rest

  -- One file's text merged onto what earlier files said, under the file's label.
  unfoldable pub parse_file : Conf → CString → CString → Conf
  parse_file c text label =
      parse_lines (record c { reading = take (file_len - 1) label; gen = u32 (c.gen + 1) }) 0 none
        (lines text)

-- What one segment's keys say together, once every file has been read.
abbrev pub is_box : Intent → Bool
is_box box = true
is_box _ = false

abbrev pub checked : Segment → Segment × Option Reason
checked s =
    let boxed = s.role_set && is_box s.role in
    if s.model_set && not boxed
    then (record s { model_set = false; model = [] }, some (model_without_box s.name s.model))
    else if boxed && not s.model_set
    then (record s { role_set = false; role = auto }, some (box_without_model s.name))
    else (s, none)

abbrev pub refuse_if : Conf → Option Reason → Conf
refuse_if c none = c
refuse_if c (some r) = refuse c 0 r

-- The entries done so far keep their place before the ones to come.
unfoldable pub check_all : Conf → List Segment → Conf × List Segment
check_all c [] = (c, [])
check_all c (s ∷ segs) =
    let (s', r) = checked s in let (c', rest) = check_all (refuse_if c r) segs in (c', s' ∷ rest)

unfoldable pub cross_check : Conf → Conf
cross_check c = let (c', segs) = check_all c c.segments in record c' { segments = segs }

module _ (intent_parse : CString → Option Intent) (known_model : CString → Bool) where
  unfoldable pub parse : Conf → CString → Conf
  parse c text = cross_check (parse_file intent_parse known_model c text conf_file)

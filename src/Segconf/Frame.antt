-- ===== src/Segconf/Frame.antt =====
-- A file changes only the segments that it names (src/reac_segconf.c).
pub mod Walk
pub mod Lines
use reac_pw.Prelude.{
  ℕ, zero, suc, ◌+◌, ◌≤◌, ◌<◌, ◌≡◌, refl, sym, ap, ◌∙◌, ◌≢◌, ◌⊎◌, inl, inr, Bool, true, false, not,
  ◌&&◌, ◌||◌, Option, none, some, List, [], ◌∷◌, ◌++◌, arith, length, take, All, Bool-cases,
  Option-cases, if◌then◌else◌, leb, ltb, ◌==◌,
}
use reac_pw.Prelude.Words.{u32}
use reac_pw.Prelude.Bytes.{CString, codes, str_eq, str_eq→eq, str_eq_refl}
use reac_pw.DeclaredVlan.{ifnamsiz}
use reac_pw.Segconf.{
  Conf, Cursor, State, Segment, Intent, Reason, refuse, fresh, stamped, index_of, next_index,
  get_elem?, modify, update, open_section, seen_at, repeated, past_bound, max_segments, line_room,
  file_len, unknown_section, names_nothing, name_too_long, not_closed, text_after, no_key_value,
  outside_section, line_too_long, model_len, bad_role, bad_model, bad_ignore, knock_retired,
  unknown_key,
}
use reac_pw.Segconf.Text.{
  trim, trim_start, strip_comment, split_first, unquote, lines, fold_case, case_eq, parse_bool,
}
use reac_pw.Segconf.Parse.{
  segment_name, named_section, closed_section, header, with_role, with_model, with_ignore, role_key,
  ignore_key, key_value, in_section, assignment, content, parse_line, parse_lines, parse_file,
  opens_section,
}
use reac_pw.Segconf.Queries.{find_in, find}
use reac_pw.Segconf.Bounds.{refuse-segments}

-- The section that a line opens, if the file's grammar reads it as a header.
abbrev pub closed_name : Option (CString × CString) → Option CString
closed_name none = none
closed_name (some (inner, rest)) = if ltb 0 (length rest) then none else segment_name (trim inner)

abbrev pub header_name : CString → Option CString
header_name [] = none
header_name (b ∷ text) = if b == b'[' then closed_name (split_first b']' text) else none

abbrev pub opened : CString → Option CString
opened raw = if leb line_room (length raw) then none else header_name (trim (strip_comment raw))

pub find_in-modify_ne :
    (segs : List Segment) (i : ℕ) (f : Segment → Segment) (s : Segment) (n : CString)
    → ((t : Segment) → (f t).name ≡ t.name)
    → get_elem? segs i ≡ some s
    → str_eq s.name n ≡ false
    → find_in (modify segs i f) n ≡ find_in segs n
find_in-modify_ne [] i f s n h e ne = refl
find_in-modify_ne (t ∷ segs) zero f s n h e ne = ground (arith, h t)
find_in-modify_ne (t ∷ segs) (suc i) f s n h e ne =
    ground (arith, find_in-modify_ne segs i f s n h e ne)

pub find_in-append_ne :
    (segs : List Segment) (s : Segment) (n : CString)
    → str_eq s.name n ≡ false
    → find_in (segs ++ s ∷ []) n ≡ find_in segs n
find_in-append_ne [] s n ne = ground arith
find_in-append_ne (t ∷ segs) s n ne = ground (arith, find_in-append_ne segs s n ne)

pub get_elem?-modify :
    (segs : List Segment) (i : ℕ) (f : Segment → Segment) (s : Segment)
    → get_elem? segs i ≡ some s
    → get_elem? (modify segs i f) i ≡ some (f s)
get_elem?-modify [] i f s e = cc
get_elem?-modify (t ∷ segs) zero f s e = ground arith
get_elem?-modify (t ∷ segs) (suc i) f s e = get_elem?-modify segs i f s e

pub get_elem?-append :
    (segs : List Segment) (s : Segment) → get_elem? (segs ++ s ∷ []) (length segs) ≡ some s
get_elem?-append [] s = refl
get_elem?-append (t ∷ segs) s = get_elem?-append segs s

pub index_of-some :
    (segs : List Segment) (n : CString) (i : ℕ)
    → index_of segs n ≡ some i
    → (s : Segment) × (get_elem? segs i ≡ some s) × (s.name ≡ n)
unfolding index_of
index_of-some [] n i e = absurd (cc)
index_of-some (s ∷ segs) n i e = elim (Bool-cases (str_eq s.name n)) [
  | inl same ↦ let z : i ≡ 0 = ground arith in (s, rw z refl, str_eq→eq s.name n same)
  | inr other ↦ elim (Option-cases (index_of segs n)) [
    | inl no_more ↦ absurd (ground arith)
    | inr (j, at) ↦
        let z : i ≡ suc j = ground arith in
        let (t, g, m) = index_of-some segs n j at in (t, rw z g, m)
  ]
]

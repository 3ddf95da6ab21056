-- ===== src/Segconf/DropIn/Role.antt =====
-- The round trip of a drop-in that pins a segment's role (src/reac_segconf.c).
use reac_pw.Prelude.{
  ℕ, ◌≤◌, ◌<◌, ◌≡◌, refl, ap, ◌∙◌, ◌≢◌, Bool, true, false, Option, none, some, [], ◌∷◌, ◌++◌, arith,
  length, take-short, all, leb, ◌==◌, length-append,
}
use reac_pw.Prelude.Bytes.{CString, codes}
use reac_pw.DeclaredVlan.{ifnamsiz}
use reac_pw.Segconf.{Conf, Cursor, Intent, index_of, update, open_section, line_room}
use reac_pw.Segconf.Text.{trim, strip_comment, split_first, unquote, fold_case}
use reac_pw.Segconf.Parse.{
  segment_name, header, closed_section, assignment, with_role, key_value, content, parse_line,
}
use reac_pw.Segconf.DropIn.{
  IsWord, plain, Without, word-Without, Without-append, split_first-append, strip-same,
  trim_end-snoc, trim_end-append, trim_end-word, trim-blank_word, unquote-word,
}

-- The lines `[segment NAME]` and `role = VALUE`.
abbrev pub header_line : CString → CString
header_line name = codes "[segment " ++ name ++ codes "]"

abbrev pub role_line : CString → CString
role_line val = codes "role = " ++ val

abbrev pub drop_in : CString → CString → CString
drop_in name val = header_line name ++ 10 ∷ (role_line val ++ 10 ∷ [])

pub literal-Without :
    (mark : ℕ) (p s : CString)
    → Without mark p
    → plain mark ≡ false
    → all plain s ≡ true
    → Without mark (p ++ s)
literal-Without mark p s w m h = Without-append mark p s w (word-Without mark s m h)

segment_name-word :
    (name : CString) → all plain name ≡ true → segment_name (codes "segment " ++ name) ≡ some name
unfolding segment_name fold_case
segment_name-word name h = rw (trim-blank_word name h)

module _ (name : CString) (w : IsWord name) where
  pub header-Without :
      (mark : ℕ)
      → plain mark ≡ false
      → Without mark (codes "[segment ")
      → b']' ≢ mark
      → Without mark (header_line name)
  header-Without mark m p q =
      Without-append mark (codes "[segment ") (name ++ codes "]") p
        (Without-append mark name (codes "]") (word-Without mark name m w.plainly) (q, tt))

  trim-header : trim (header_line name) ≡ header_line name
  unfolding trim
  trim-header = trim_end-snoc (codes "[segment " ++ name) b']' refl

  trim-inner : trim (codes "segment " ++ name) ≡ codes "segment " ++ name
  unfolding trim
  trim-inner = trim_end-append (codes "segment ") name w.some_byte (trim_end-word name w.plainly)

  header-split :
      split_first b']' (codes "segment " ++ name ++ codes "]") ≡ some (codes "segment " ++ name, [])
  header-split =
      split_first-append b']' (codes "segment " ++ name) []
        (literal-Without b']' (codes "segment ") name (omega arith) refl w.plainly)

module _ (intent_parse : CString → Option Intent) (known_model : CString → Bool) where
  parse_line-clean :
      (c : Conf) (line : ℕ) (cur : Option Cursor) (raw : CString)
      → length raw < line_room
      → strip_comment raw ≡ raw
      → trim raw ≡ raw
      → parse_line intent_parse known_model c line cur raw
        ≡ content intent_parse known_model c line cur raw
  unfolding parse_line
  parse_line-clean c line cur raw l s t =
      let fits : leb line_room (length raw) ≡ false = ground arith in rw (fits, s, t)

  closed_section-word :
      (c : Conf) (line : ℕ) (text name inner shown : CString)
      → split_first b']' text ≡ some (inner, [])
      → trim inner ≡ inner
      → segment_name inner ≡ some name
      → 0 < length name
      → length name < ifnamsiz
      → closed_section c line shown (split_first b']' text)
        ≡ open_section c line name (index_of c.segments name)
  closed_section-word c line text name inner shown e t n p l =
      let some_name : (length name == 0) ≡ false = ground arith in
      let fits : leb ifnamsiz (length name) ≡ false = ground arith in rw (e, t, n, some_name, fits)

  pub parse_line-header :
      (name : CString)
      → IsWord name
      → length name < ifnamsiz
      → (c : Conf) (line : ℕ)
      → parse_line intent_parse known_model c line none (header_line name)
        ≡ open_section c line name (index_of c.segments name)
  unfolding header strip_comment
  parse_line-header name w l c line =
      parse_line-clean c line none (header_line name)
        (omega (arith, length-append name (codes "]")))
        (strip-same true (header_line name)
          (header-Without name w b'#' refl (omega arith) (omega arith))
          (header-Without name w b';' refl (omega arith) (omega arith)))
        (trim-header name w)
      ∙ closed_section-word c line (codes "segment " ++ name ++ codes "]") name
          (codes "segment " ++ name) (header_line name) (header-split name w) (trim-inner name w)
          (segment_name-word name w.plainly) w.some_byte l

  assignment-word :
      (c : Conf) (line : ℕ) (cur : Cursor) (text left right key val : CString)
      → split_first b'=' text ≡ some (left, right)
      → trim left ≡ key
      → unquote (trim right) ≡ val
      → assignment intent_parse known_model c line (some cur) text (split_first b'=' text)
        ≡ (key_value intent_parse known_model c line cur key val, some cur)
  assignment-word c line cur text left right key val e k v = rw (e, k, v)

  key_value-role :
      (c : Conf) (line : ℕ) (cur : Cursor) (val : CString) (i : Intent)
      → fold_case val ≡ val
      → length val ≤ 63
      → intent_parse val ≡ some i
      → key_value intent_parse known_model c line cur (codes "role") val
        ≡ update c cur.at (with_role c.reading i)
  unfolding key_value
  key_value-role c line cur val i f l p = rw (f, take-short 63 val l, p)

  pub parse_line-role :
      (val : CString) (i : Intent)
      → IsWord val
      → fold_case val ≡ val
      → length val ≤ 63
      → intent_parse val ≡ some i
      → (c : Conf) (line : ℕ) (cur : Cursor)
      → parse_line intent_parse known_model c line (some cur) (role_line val)
        ≡ (update c cur.at (with_role c.reading i), some cur)
  unfolding strip_comment trim
  parse_line-role val i w f l p c line cur =
      parse_line-clean c line (some cur) (role_line val) (omega arith)
        (strip-same true (role_line val)
          (literal-Without b'#' (codes "role = ") val (omega arith) refl w.plainly)
          (literal-Without b';' (codes "role = ") val (omega arith) refl w.plainly))
        (trim_end-append (codes "role = ") val w.some_byte (trim_end-word val w.plainly))
      ∙ (assignment-word c line cur (role_line val) (codes "role ") (b' ' ∷ val) (codes "role") val
            (split_first-append b'=' (codes "role ") (b' ' ∷ val) (omega arith)) refl
            (ap unquote (trim-blank_word val w.plainly) ∙ unquote-word val w.plainly)
          ∙ ap (λ d. (d, some cur)) (key_value-role c line cur val i f l p))

-- ===== src/Segconf/DropIn/Pinned.antt =====
-- A drop-in pins the role it names, whatever the configuration held (src/reac_segconf.c).
use reac_pw.Prelude.{
  ℕ, zero, suc, ◌+◌, ◌-◌, ◌≤◌, ◌<◌, ◌≡◌, refl, ap, ◌∙◌, inl, inr, Bool, true, false, Option, none,
  some, List, [], ◌∷◌, ◌++◌, arith, length, take, take-short, Bool-cases, Option-cases,
  if◌then◌else◌, leb, ◌==◌,
}
use reac_pw.Prelude.Words.{u32}
use reac_pw.Prelude.Bytes.{CString, codes, str_eq, str_eq_refl}
use reac_pw.DeclaredVlan.{ifnamsiz}
use reac_pw.Segconf.{
  Conf, Cursor, Segment, Intent, refuse, fresh, stamped, index_of, modify, update, open_section,
  seen_at, repeated, max_segments, file_len,
}
use reac_pw.Segconf.Text.{lines, fold_case}
use reac_pw.Segconf.Parse.{with_role, parse_line, parse_lines, parse_file}
use reac_pw.Segconf.Queries.{find_in, find, role}
use reac_pw.Segconf.Bounds.{refuse-segments}
use reac_pw.Segconf.DropIn.{IsWord, lines-append}
use reac_pw.Segconf.DropIn.Role.{
  header_line, role_line, drop_in, header-Without, literal-Without, parse_line-header,
  parse_line-role,
}

modify-modify :
    (segs : List Segment) (i : ℕ) (f g : Segment → Segment)
    → modify (modify segs i f) i g ≡ modify segs i (λ s. g (f s))
modify-modify [] i f g = refl
modify-modify (s ∷ segs) zero f g = refl
modify-modify (s ∷ segs) (suc i) f g = ap (λ t. s ∷ t) (modify-modify segs i f g)

find_in-modify :
    (segs : List Segment) (n : CString) (i : ℕ) (f : Segment → Segment)
    → ((s : Segment) → (f s).name ≡ s.name)
    → index_of segs n ≡ some i
    → (s : Segment) × (find_in (modify segs i f) n ≡ some (f s))
unfolding index_of
find_in-modify [] n i f h e = absurd cc
find_in-modify (s ∷ segs) n i f h e = elim (Bool-cases (str_eq s.name n)) [
  | inl same ↦ let z : i ≡ 0 = ground arith in (s, rw z (ground (arith, h s)))
  | inr other ↦ elim (Option-cases (index_of segs n)) [
    | inl no_more ↦ absurd (ground arith)
    | inr (j, at) ↦
        let z : i ≡ suc j = ground arith in
        let (t, m) = find_in-modify segs n j f h at in (t, rw z (ground (arith, m)))
  ]
]

find_in-appended :
    (segs : List Segment) (n : CString) (s : Segment) (f : Segment → Segment)
    → (f s).name ≡ n
    → index_of segs n ≡ none
    → find_in (modify (segs ++ s ∷ []) (length segs) f) n ≡ some (f s)
unfolding index_of
find_in-appended [] n s f h e = rw (h, str_eq_refl n)
find_in-appended (t ∷ segs) n s f h e = elim (Bool-cases (str_eq t.name n)) [
  | inl same ↦ absurd (ground arith)
  | inr other ↦ elim (Option-cases (index_of segs n)) [
    | inl no_more ↦ rw other (find_in-appended segs n s f h no_more)
    | inr (j, at) ↦ absurd (ground arith)
  ]
]

-- The header of `name` opens its section, and a role set there is the one that is found.
opened_role :
    (c : Conf) (line : ℕ) (name : CString) (i : Intent) (at : Option ℕ)
    → index_of c.segments name ≡ at
    → length name < ifnamsiz
    → (at ≡ none → length c.segments < max_segments)
    → let (c', cur) = open_section c line name at in
      (k : Cursor) × (s : Segment) × (cur ≡ some k)
      × (find_in (update c' k.at (with_role c'.reading i)).segments name
          ≡ some (with_role c'.reading i s))
opened_role c line name i none e l room =
    let fits : leb max_segments (length c.segments) ≡ false = ground (arith, room refl) in
    let short : (stamped c.gen (fresh name)).name ≡ name =
      take-short (ifnamsiz - 1) name (omega arith) in
    rw fits (
      record { at = length c.segments; name = name },
      stamped c.gen (fresh name),
      refl,
      find_in-appended c.segments name (stamped c.gen (fresh name)) (with_role c.reading i) short e,
    )
opened_role c line name i (some at) e l room =
    let said = if seen_at c.segments at == c.gen then refuse c line (repeated name) else c in
    let same : said.segments ≡ c.segments = kept (seen_at c.segments at == c.gen) in
    let (s, m) =
      find_in-modify c.segments name at (λ t. with_role said.reading i (stamped c.gen t))
        (λ t. refl) e in
    (
      record { at = at; name = name },
      stamped c.gen s,
      refl,
      rw (same, modify-modify c.segments at (stamped c.gen) (with_role said.reading i)) m,
    )
  where
    kept : (b : Bool) → (if b then refuse c line (repeated name) else c).segments ≡ c.segments
    kept true = refuse-segments c line (repeated name)
    kept false = refl

lines-drop_in :
    (name val : CString)
    → IsWord name
    → IsWord val
    → lines (drop_in name val) ≡ header_line name ∷ role_line val ∷ []
unfolding lines
lines-drop_in name val w v =
    lines-append (header_line name) (role_line val ++ 10 ∷ [])
      (header-Without name w 10 refl (omega arith) (omega arith))
    ∙ ap (λ ls. header_line name ∷ ls)
        (lines-append (role_line val) []
          (literal-Without 10 (codes "role = ") val (omega arith) refl v.plainly))

role-found :
    (c : Conf) (name : CString) (s : Segment) (i : Intent)
    → find_in c.segments name ≡ some s
    → (s.role_set ≡ true) × (s.role ≡ i)
    → role c name ≡ some i
unfolding role find
role-found c name s i e r = ground (arith, e, r)

module _ (intent_parse : CString → Option Intent) (known_model : CString → Bool) where
  two_lines :
      (c : Conf) (a b : CString) (c1 c2 : Conf) (k : Cursor)
      → parse_line intent_parse known_model c 1 none a ≡ (c1, some k)
      → parse_line intent_parse known_model c1 2 (some k) b ≡ (c2, some k)
      → parse_lines intent_parse known_model c 0 none (a ∷ b ∷ []) ≡ c2
  unfolding parse_lines
  two_lines c a b c1 c2 k e f =
      ap (λ st. parse_lines intent_parse known_model st.0 1 st.1 (b ∷ [])) e ∙ ap (λ st. st.0) f

  -- A drop-in `[segment NAME]` with `role = VALUE`, in any file and after any others, makes VALUE's
  -- role the role of NAME: for a plain name of an interface's length, already in the table or with
  -- room left in it, and a plain value in lower case that libreac reads as a role.
  pub role-parse_file :
      (c : Conf) (name val label : CString) (i : Intent)
      → IsWord name
      → length name < ifnamsiz
      → IsWord val
      → fold_case val ≡ val
      → length val ≤ 63
      → intent_parse val ≡ some i
      → (index_of c.segments name ≡ none → length c.segments < max_segments)
      → role (parse_file intent_parse known_model c (drop_in name val) label) name ≡ some i
  unfolding parse_file
  role-parse_file c name val label i w l v f m p room =
      let c0 = record c { reading = take (file_len - 1) label; gen = u32 (c.gen + 1) } in
      let opened = open_section c0 1 name (index_of c.segments name) in
      let (k, s, e, found) = opened_role c0 1 name i (index_of c.segments name) refl l room in
      let done = update opened.0 k.at (with_role opened.0.reading i) in
      ap (λ ls. role (parse_lines intent_parse known_model c0 0 none ls) name)
        (lines-drop_in name val w v)
      ∙ ap (λ d. role d name)
          (two_lines c0 (header_line name) (role_line val) opened.0 done k
            (parse_line-header intent_parse known_model name w l c0 1 ∙ ap (λ t. (opened.0, t)) e)
            (parse_line-role intent_parse known_model val i v f m p opened.0 2 k))
      ∙ role-found done name (with_role opened.0.reading i s) i found (refl, refl)

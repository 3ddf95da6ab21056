-- ===== src/Segconf/Frame/Walk.antt =====
-- The frame of a file, line by line (src/reac_segconf.c).
use reac_pw.Prelude.{
  ℕ, ◌+◌, ◌<◌, ◌≡◌, refl, ap, ◌∙◌, ◌≢◌, inl, inr, Bool, true, false, Option, none, some, List,
  arith, length, take-short, Bool-cases, if◌then◌else◌, leb, ltb, ◌==◌,
}
use reac_pw.Prelude.Words.{u32}
use reac_pw.Prelude.Bytes.{CString, str_eq, str_eq→eq}
use reac_pw.DeclaredVlan.{ifnamsiz}
use reac_pw.Segconf.{
  Conf, Cursor, Segment, Reason, refuse, fresh, stamped, index_of, get_elem?, update, open_section,
  seen_at, repeated, past_bound, max_segments, unknown_section, names_nothing, name_too_long,
  not_closed, text_after,
}
use reac_pw.Segconf.Text.{trim}
use reac_pw.Segconf.Parse.{segment_name, named_section, closed_section}
use reac_pw.Segconf.Queries.{find_in}
use reac_pw.Segconf.Bounds.{refuse-segments}
use reac_pw.Segconf.Frame.{
  closed_name, find_in-modify_ne, find_in-append_ne, get_elem?-modify, get_elem?-append,
  index_of-some,
}

module _ (n : CString) (before : List Segment) where
  -- The cursor stands at another segment.
  abbrev pub Away : List Segment → Option Cursor → Type 0
  Away segs none = Unit
  Away segs (some cur) =
      (s : Segment) × (get_elem? segs cur.at ≡ some s) × (str_eq s.name n ≡ false)

  pub record Apart (segs : List Segment) (cur : Option Cursor) : Type 0 where
    pub same : find_in segs n ≡ find_in before n
    pub away : Away segs cur

  pub refuse-Apart :
      (c : Conf) (line : ℕ) (r : Reason) (cur : Option Cursor)
      → Apart c.segments cur
      → Apart (refuse c line r).segments cur
  refuse-Apart c line r cur a = rw (refuse-segments c line r) a

  pub update-Apart :
      (c : Conf) (cur : Cursor) (f : Segment → Segment)
      → ((t : Segment) → (f t).name ≡ t.name)
      → Apart c.segments (some cur)
      → Apart (update c cur.at f).segments (some cur)
  update-Apart c cur f h a =
      let (s, e, ne) = a.away in
      record {
        same = find_in-modify_ne c.segments cur.at f s n h e ne ∙ a.same;
        away = (f s, get_elem?-modify c.segments cur.at f s e, rw (h s) ne);
      }

  pub pick-Apart :
      (b : Bool) (c d : Conf) (cur : Option Cursor)
      → Apart c.segments cur
      → Apart d.segments cur
      → Apart (if b then c else d).segments cur
  pick-Apart true c d cur v w = v
  pick-Apart false c d cur v w = w

  open_section-Apart :
      (c : Conf) (line : ℕ) (name : CString) (found : Option ℕ)
      → index_of c.segments name ≡ found
      → length name < ifnamsiz
      → str_eq name n ≡ false
      → find_in c.segments n ≡ find_in before n
      → let (c', cur) = open_section c line name found in Apart c'.segments cur
  open_section-Apart c line name (some i) e l ne same =
      let (s, g, m) = index_of-some c.segments name i e in
      let here : Apart c.segments (some (record { at = i; name = name })) = record {
        same = same;
        away = (s, g, rw m ne);
      } in
      update-Apart (if seen_at c.segments i == c.gen then refuse c line (repeated name) else c)
        (record { at = i; name = name }) (stamped c.gen) (λ t. refl)
        (pick-Apart (seen_at c.segments i == c.gen) (refuse c line (repeated name)) c
          (some (record { at = i; name = name }))
          (refuse-Apart c line (repeated name) (some (record { at = i; name = name })) here) here)
  open_section-Apart c line name none e l ne same =
      elim (Bool-cases (leb max_segments (length c.segments))) [
        | inl whole ↦ rw whole (
            refuse-Apart (record c { overflow = u32 (c.overflow + 1) }) line (past_bound name) none
              (record { same = same; away = tt }))
        | inr room ↦
            let new : Segment = stamped c.gen (fresh name) in
            let ne' : str_eq new.name n ≡ false = rw (take-short 15 name (omega arith)) ne in
            rw room (record {
              same = find_in-append_ne c.segments new n ne' ∙ same;
              away = (new, get_elem?-append c.segments new, ne');
            })
      ]

  named_section-Apart :
      (c : Conf) (line : ℕ) (body : CString) (found : Option CString)
      → (found ≢ some n)
      → find_in c.segments n ≡ find_in before n
      → let (c', cur) = named_section c line body found in Apart c'.segments cur
  named_section-Apart c line body none ne same =
      refuse-Apart c line (unknown_section body) none (record { same = same; away = tt })
  named_section-Apart c line body (some name) ne same = elim (Bool-cases (length name == 0)) [
    | inl nothing ↦
        rw nothing (refuse-Apart c line names_nothing none (record { same = same; away = tt }))
    | inr more ↦ elim (Bool-cases (leb ifnamsiz (length name))) [
      | inl long ↦
          rw (more, long)
            (refuse-Apart c line (name_too_long name) none (record { same = same; away = tt }))
      | inr fits ↦
          rw (more, fits)
            (open_section-Apart c line name (index_of c.segments name) refl (ground arith)
              (other name ne) same)
    ]
  ]
    where
      other : (m : CString) → some m ≢ some n → str_eq m n ≡ false
      other m d = elim (Bool-cases (str_eq m n)) [
        | inl e ↦ absurd (d (ap some (str_eq→eq m n e)))
        | inr f ↦ f
      ]

  pub closed_section-Apart :
      (c : Conf) (line : ℕ) (text : CString) (cut : Option (CString × CString))
      → (closed_name cut ≢ some n)
      → find_in c.segments n ≡ find_in before n
      → let (c', cur) = closed_section c line text cut in Apart c'.segments cur
  closed_section-Apart c line text none ne same =
      refuse-Apart c line (not_closed text) none (record { same = same; away = tt })
  closed_section-Apart c line text (some (inner, rest)) ne same =
      elim (Bool-cases (ltb 0 (length rest))) [
        | inl more ↦
            rw more (refuse-Apart c line (text_after text) none (record { same = same; away = tt }))
        | inr clean ↦ rw clean (
            named_section-Apart c line (trim inner) (segment_name (trim inner)) (rw clean at ne)
              same)
      ]

-- ===== src/Segconf/Bounds.antt =====
-- What stays true of the configuration's table whatever the files say (src/reac_segconf.c).
pub mod Files
use reac_pw.Prelude.{
  ℕ, zero, suc, ◌+◌, ◌≤◌, ◌<◌, ◌≡◌, refl, sym, ap, ◌∙◌, ◌≢◌, ◌⊎◌, inl, inr, Bool, true, false, not,
  ◌&&◌, ◌||◌, Option, none, some, List, [], ◌∷◌, ◌++◌, arith, map, length, length-append,
  take-short, All, Bool-cases, Option-cases, if◌then◌else◌, leb, ltb, ◌==◌,
}
use reac_pw.Prelude.Bytes.{CString, str_eq, str_eq→eq, str_eq_refl, str_eq_comm}
use reac_pw.DeclaredVlan.{ifnamsiz}
use reac_pw.Segconf.{
  Conf, Cursor, State, Segment, Intent, Refusal, Reason, max_segments, max_refusals, init, refuse,
  fresh, stamped, index_of, modify, update, open_section, next_index, repeated, past_bound,
  unknown_section, names_nothing, name_too_long, not_closed, text_after, seen_at,
}
use mathlib.Core.List.{map-append}
use reac_pw.Prelude.Words.{u32}
use reac_pw.Segconf.Text.{trim}
use reac_pw.Segconf.Parse.{
  named_section, closed_section, segment_name, with_role, with_model, with_ignore, key_value,
  header, parse_line, parse_lines, parse_file, check_all, cross_check, checked, refuse_if, parse,
}

abbrev pub names : List Segment → List CString
names = map λ s. s.name

abbrev pub has : List CString → CString → Bool
has [] n = false
has (m ∷ ms) n = str_eq m n || has ms n

abbrev pub Distinct : List CString → Type 0
Distinct [] = Unit
Distinct (m ∷ ms) = (has ms m ≡ false) × Distinct ms

module _ (known_model : CString → Bool) where
  -- A name that an interface can have, and a model that the catalogue knows.
  pub record IsSegment (s : Segment) : Type 0 where
    pub short : length s.name < ifnamsiz
    pub known : s.model_set ≡ true → known_model s.model ≡ true

  pub record IsConf (c : Conf) : Type 0 where
    pub few : length c.segments ≤ max_segments
    pub kept : length c.refusals ≤ max_refusals
    pub entries : All IsSegment c.segments
    pub distinct : Distinct (names c.segments)

pub refuse-segments : (c : Conf) (line : ℕ) (r : Reason) → (refuse c line r).segments ≡ c.segments
unfolding refuse
refuse-segments c line r = ground arith

pub refuse-reading :
    (c : Conf) (line : ℕ) (r : Reason)
    → ((refuse c line r).reading ≡ c.reading) × ((refuse c line r).gen ≡ c.gen)
unfolding refuse
refuse-reading c line r = ground arith

refuse-kept :
    (c : Conf) (line : ℕ) (r : Reason)
    → length c.refusals ≤ max_refusals
    → length (refuse c line r).refusals ≤ max_refusals
unfolding refuse
refuse-kept c line r h = grind (arith, length-append)

pub names-modify :
    (segs : List Segment) (i : ℕ) (f : Segment → Segment)
    → ((s : Segment) → (f s).name ≡ s.name)
    → names (modify segs i f) ≡ names segs
names-modify [] i f h = refl
names-modify (s ∷ segs) zero f h = ap (λ n. n ∷ names segs) (h s)
names-modify (s ∷ segs) (suc i) f h = ap (◌∷◌ s.name) (names-modify segs i f h)

length-names : (segs : List Segment) → length (names segs) ≡ length segs
length-names [] = refl
length-names (s ∷ segs) = ap suc (length-names segs)

pub All-modify {ℓ} :
    (P : Segment → Type ℓ) (segs : List Segment) (i : ℕ) (f : Segment → Segment)
    → ((s : Segment) → P s → P (f s))
    → All P segs
    → All P (modify segs i f)
All-modify P [] i f h a = tt
All-modify P (s ∷ segs) zero f h a = (h s a.0, a.1)
All-modify P (s ∷ segs) (suc i) f h a = (a.0, All-modify P segs i f h a.1)

pub All-append {ℓ} :
    (P : Segment → Type ℓ) (segs : List Segment) (s : Segment)
    → All P segs
    → P s
    → All P (segs ++ s ∷ [])
All-append P [] s a p = (p, tt)
All-append P (t ∷ segs) s a p = (a.0, All-append P segs s a.1 p)

pub index_of-none :
    (segs : List Segment) (n : CString) → index_of segs n ≡ none → has (names segs) n ≡ false
unfolding index_of
index_of-none [] n h = refl
index_of-none (s ∷ segs) n h = ground (arith, index_of-none segs n)

has-append : (ms : List CString) (m n : CString) → has (ms ++ m ∷ []) n ≡ (has ms n || str_eq m n)
has-append [] m n = ground arith
has-append (k ∷ ms) m n = ground (arith, has-append ms m n)

Distinct-append :
    (ms : List CString) (m : CString) → Distinct ms → has ms m ≡ false → Distinct (ms ++ m ∷ [])
Distinct-append [] m d h = (refl, tt)
Distinct-append (k ∷ ms) m d h =
    (ground (arith, has-append ms m k, str_eq_comm k m), Distinct-append ms m d.1 (ground arith))

module _ (known_model : CString → Bool) where
  pub refuse-IsConf :
      (c : Conf) (line : ℕ) (r : Reason)
      → IsConf known_model c
      → IsConf known_model (refuse c line r)
  refuse-IsConf c line r v =
      let e = refuse-segments c line r in
      record {
        few = rw e v.few;
        kept = refuse-kept c line r v.kept;
        entries = rw e v.entries;
        distinct = rw e v.distinct;
      }

  pub update-IsConf :
      (c : Conf) (i : ℕ) (f : Segment → Segment)
      → ((s : Segment) → (f s).name ≡ s.name)
      → ((s : Segment) → IsSegment known_model s → IsSegment known_model (f s))
      → IsConf known_model c
      → IsConf known_model (update c i f)
  update-IsConf c i f same good v =
      let e = names-modify c.segments i f same in
      record {
        few = omega (
          arith,
          ap length e,
          length-names c.segments,
          length-names (modify c.segments i f),
          v.few,
        );
        kept = v.kept;
        entries = All-modify (IsSegment known_model) c.segments i f good v.entries;
        distinct = rw e v.distinct;
      }

  pub either-IsConf :
      (b : Bool) {c d : Conf}
      → IsConf known_model c
      → IsConf known_model d
      → IsConf known_model (if b then c else d)
  either-IsConf true v w = v
  either-IsConf false v w = w

  stamped-IsSegment :
      (g : ℕ) (s : Segment) → IsSegment known_model s → IsSegment known_model (stamped g s)
  stamped-IsSegment g s v = record { short = v.short; known = v.known }

  append-IsConf :
      (c : Conf) (g : ℕ) (name : CString)
      → index_of c.segments name ≡ none
      → length name < ifnamsiz
      → length c.segments < max_segments
      → IsConf known_model c
      → IsConf known_model (record c { segments = c.segments ++ stamped g (fresh name) ∷ [] })
  append-IsConf c g name e l room v =
      let e' : (fresh name).name ≡ name = take-short 15 name (omega arith) in
      record {
        few = omega (arith, length-append c.segments (stamped g (fresh name) ∷ []));
        kept = v.kept;
        entries =
            All-append (IsSegment known_model) c.segments (stamped g (fresh name)) v.entries
              (record { short = rw e' l; known = λ f. cc });
        distinct =
            rw (map-append (λ (s : Segment). s.name) c.segments (stamped g (fresh name) ∷ [])) (
              Distinct-append (names c.segments) (fresh name).name v.distinct
                (rw e' (index_of-none c.segments name e)));
      }

  open_section-IsConf :
      (c : Conf) (line : ℕ) (name : CString) (found : Option ℕ)
      → index_of c.segments name ≡ found
      → length name < ifnamsiz
      → IsConf known_model c
      → IsConf known_model (open_section c line name found).0
  open_section-IsConf c line name (some i) e l v =
      update-IsConf _ i (stamped c.gen) (λ s. refl) (stamped-IsSegment c.gen)
        (either-IsConf (seen_at c.segments i == c.gen) (refuse-IsConf c line (repeated name) v) v)
  open_section-IsConf c line name none e l v =
      elim (Bool-cases (leb max_segments (length c.segments))) [
        | inl whole ↦ rw whole (
            refuse-IsConf (record c { overflow = u32 (c.overflow + 1) }) line (past_bound name)
              (record { few = v.few; kept = v.kept; entries = v.entries; distinct = v.distinct }))
        | inr room ↦ rw room (append-IsConf c c.gen name e l (ground arith) v)
      ]

  named_section-IsConf :
      (c : Conf) (line : ℕ) (body : CString) (found : Option CString)
      → IsConf known_model c
      → IsConf known_model (named_section c line body found).0
  named_section-IsConf c line body none v = refuse-IsConf c line (unknown_section body) v
  named_section-IsConf c line body (some name) v = elim (Bool-cases (length name == 0)) [
    | inl nothing ↦ rw nothing (refuse-IsConf c line names_nothing v)
    | inr more ↦ elim (Bool-cases (leb ifnamsiz (length name))) [
      | inl long ↦ rw (more, long) (refuse-IsConf c line (name_too_long name) v)
      | inr fits ↦
          rw (more, fits)
            (open_section-IsConf c line name (index_of c.segments name) refl (ground arith) v)
    ]
  ]

  pub closed_section-IsConf :
      (c : Conf) (line : ℕ) (text : CString) (cut : Option (CString × CString))
      → IsConf known_model c
      → IsConf known_model (closed_section c line text cut).0
  closed_section-IsConf c line text none v = refuse-IsConf c line (not_closed text) v
  closed_section-IsConf c line text (some (inner, rest)) v =
      elim (Bool-cases (ltb 0 (length rest))) [
        | inl more ↦ rw more (refuse-IsConf c line (text_after text) v)
        | inr clean ↦
            rw clean (named_section-IsConf c line (trim inner) (segment_name (trim inner)) v)
      ]

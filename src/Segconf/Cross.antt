-- ===== src/Segconf/Cross.antt =====
-- The check across keys, once every file has been read (src/reac_segconf.c).
use reac_pw.Prelude.{
  suc, ◌≡◌, refl, ap, ◌≢◌, Bool, true, false, ◌&&◌, Option, none, some, List, [], ◌∷◌, arith,
  length, All,
}
use reac_pw.Prelude.Bytes.{CString}
use reac_pw.Segconf.{Conf, Segment, Intent, box, Reason, init}
use reac_pw.Segconf.Parse.{is_box, checked, refuse_if, check_all, cross_check}
use reac_pw.Segconf.Bounds.{IsSegment, IsConf, names, refuse-IsConf}
use reac_pw.Segconf.Bounds.Files.{parse_files, parse_files-IsConf, init-IsConf}

-- A model stands exactly with the role `box`.
abbrev pub IsConsistent : Segment → Type 0
IsConsistent s = s.model_set ≡ (s.role_set && is_box s.role)

-- What the check leaves of a segment: all but a model without its box, or a box without its model.
pub record Mended (s t : Segment) : Type 0 where
  pub consistent : IsConsistent t
  pub name : t.name ≡ s.name
  pub kept : IsConsistent s → t ≡ s
  pub role :
      s.model_set ≡ false
      → s.role_set ≡ true
      → s.role ≢ box
      → (t.role_set ≡ true) × (t.role ≡ s.role)
  pub ignore : (t.ignore ≡ s.ignore) × (t.ignore_set ≡ s.ignore_set)
  pub model : t.model_set ≡ true → (s.model_set ≡ true) × (t.model ≡ s.model)

checked-Mended : (s : Segment) → Mended s (checked s).0
checked-Mended s = ground arith

-- The segments pair by pair.
abbrev pub AllMended : List Segment → List Segment → Type 0
AllMended [] [] = Unit
AllMended [] (t ∷ ts) = ⊥
AllMended (s ∷ ss) [] = ⊥
AllMended (s ∷ ss) (t ∷ ts) = Mended s t × AllMended ss ts

check_all-Mended : (c : Conf) (segs : List Segment) → AllMended segs (check_all c segs).1
unfolding check_all
check_all-Mended c [] = tt
check_all-Mended c (s ∷ segs) =
    (checked-Mended s, check_all-Mended (refuse_if c (checked s).1) segs)

checked-none : (s : Segment) → IsConsistent s → checked s ≡ (s, none)
checked-none s e = ground arith

check_all-same :
    (c : Conf) (segs : List Segment) → All IsConsistent segs → check_all c segs ≡ (c, segs)
unfolding check_all
check_all-same c [] a = refl
check_all-same c (s ∷ segs) a = ground (arith, checked-none s a.0, check_all-same c segs a.1)

pub Mended-IsConsistent : (ss ts : List Segment) → AllMended ss ts → All IsConsistent ts
Mended-IsConsistent [] [] m = tt
Mended-IsConsistent [] (t ∷ ts) m = absurd m
Mended-IsConsistent (s ∷ ss) [] m = absurd m
Mended-IsConsistent (s ∷ ss) (t ∷ ts) m = (m.0.consistent, Mended-IsConsistent ss ts m.1)

consistent-same : (c : Conf) → All IsConsistent c.segments → cross_check c ≡ c
unfolding cross_check
consistent-same c a = rw (check_all-same c c.segments a)

pub cross_check-AllMended : (c : Conf) → AllMended c.segments (cross_check c).segments
unfolding cross_check
cross_check-AllMended c = check_all-Mended c c.segments

-- The check mends each segment by itself: afterwards a model stands exactly with the role `box`,
-- and nothing else of a segment has changed; a second check changes nothing and refuses nothing.
pub cross_check-Mended :
    (c : Conf)
    → AllMended c.segments (cross_check c).segments × (cross_check (cross_check c) ≡ cross_check c)
cross_check-Mended c =
    let m = cross_check-AllMended c in
    (m, consistent-same (cross_check c) (Mended-IsConsistent c.segments (cross_check c).segments m))

names-Mended : (ss ts : List Segment) → AllMended ss ts → names ts ≡ names ss
names-Mended [] [] m = refl
names-Mended [] (t ∷ ts) m = absurd m
names-Mended (s ∷ ss) [] m = absurd m
names-Mended (s ∷ ss) (t ∷ ts) m = rw (m.0.name, names-Mended ss ts m.1)

length-Mended : (ss ts : List Segment) → AllMended ss ts → length ts ≡ length ss
length-Mended [] [] m = refl
length-Mended [] (t ∷ ts) m = absurd m
length-Mended (s ∷ ss) [] m = absurd m
length-Mended (s ∷ ss) (t ∷ ts) m = ap suc (length-Mended ss ts m.1)

module _ (known_model : CString → Bool) where
  entries-Mended :
      (ss ts : List Segment)
      → AllMended ss ts
      → All (IsSegment known_model) ss
      → All (IsSegment known_model) ts
  entries-Mended [] [] m a = tt
  entries-Mended [] (t ∷ ts) m a = absurd m
  entries-Mended (s ∷ ss) [] m a = absurd m
  entries-Mended (s ∷ ss) (t ∷ ts) m a = (
    record {
      short = rw m.0.name a.0.short;
      known = λ e. rw (m.0.model e).1 (a.0.known (m.0.model e).0);
    },
    entries-Mended ss ts m.1 a.1,
  )

  refuse_if-IsConf :
      (c : Conf) (r : Option Reason) → IsConf known_model c → IsConf known_model (refuse_if c r)
  refuse_if-IsConf c none v = v
  refuse_if-IsConf c (some r) v = refuse-IsConf known_model c 0 r v

  check_all-IsConf :
      (c : Conf) (segs : List Segment)
      → IsConf known_model c
      → IsConf known_model (check_all c segs).0
  unfolding check_all
  check_all-IsConf c [] v = v
  check_all-IsConf c (s ∷ segs) v =
      check_all-IsConf (refuse_if c (checked s).1) segs (refuse_if-IsConf c (checked s).1 v)

  pub cross_check-IsConf : (c : Conf) → IsConf known_model c → IsConf known_model (cross_check c)
  unfolding cross_check
  cross_check-IsConf c v =
      let m = check_all-Mended c c.segments in
      record {
        few = rw (length-Mended c.segments (check_all c c.segments).1 m) v.few;
        kept = (check_all-IsConf c c.segments v).kept;
        entries = entries-Mended c.segments (check_all c c.segments).1 m v.entries;
        distinct = rw (names-Mended c.segments (check_all c c.segments).1 m) v.distinct;
      }

module _ (intent_parse : CString → Option Intent) (known_model : CString → Bool) where
  -- What a load makes of the texts of the configuration's files.
  abbrev pub loaded : List (CString × CString) → Conf
  loaded files = cross_check (parse_files intent_parse known_model init files)

  -- Whatever bytes the configuration's files hold, the loaded table keeps at most 32 segments, each
  -- once and with a name that an interface can have; at most 8 refusals are kept; a segment has a
  -- model exactly where its role is `box`, and then one that the catalogue knows.
  pub loaded-IsConf :
      (files : List (CString × CString))
      → IsConf known_model (loaded files) × All IsConsistent (loaded files).segments
  loaded-IsConf files =
      let c = parse_files intent_parse known_model init files in
      let v =
        parse_files-IsConf intent_parse known_model init files
          (init-IsConf intent_parse known_model) in
      (
        cross_check-IsConf known_model c v,
        Mended-IsConsistent c.segments (cross_check c).segments (cross_check-AllMended c),
      )

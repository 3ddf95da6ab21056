-- ===== src/Segconf/Vlans.antt =====
-- The VLANs that the configuration declares (`reac_segconf_declared` in src/reac_segconf.c).
use reac_pw.Prelude.{
  ℕ, ◌+◌, ◌<◌, ◌≡◌, ◌≢◌, ◌⊎◌, inl, inr, true, false, ◌&&◌, Bool-cases, Option-cases, some, List, [],
  ◌∷◌, arith, length, ◌==◌,
}
use reac_pw.Prelude.Bytes.{CString, str_eq, str_eq→eq}
use reac_pw.DeclaredVlan.{Declared, declares, Added, full, duplicate, added, ifnamsiz, split, add}
use reac_pw.DeclaredVlan.Split.{IsVlanName, split_iff}
use reac_pw.DeclaredVlan.Table.{IsTable, add-cases, add-IsTable, declares-add}
use reac_pw.Segconf.{Conf, Segment}
use reac_pw.Segconf.Queries.{declare_one, after_one, declared_from, declared}

-- A segment of the list that is not switched off has the name of this VLAN.
abbrev pub Written : List Segment → CString → ℕ → Type 0
Written [] parent vid = ⊥
Written (s ∷ segs) parent vid =
    ((s.ignore ≡ false) × IsVlanName s.name ifnamsiz parent vid) ⊎ Written segs parent vid

split_held :
    (name parent : CString) (vid : ℕ)
    → split name ifnamsiz ≡ some (parent, vid)
    → length parent < ifnamsiz
split_held name parent vid e = ((split_iff name ifnamsiz parent vid).0 e).held

declare_one-IsTable :
    (s : Segment) (tab : List Declared) (max : ℕ)
    → IsTable max tab
    → IsTable max (declare_one s tab max).0
declare_one-IsTable s tab max t = elim (Bool-cases s.ignore) [
  | inl off ↦ rw off t
  | inr on ↦ elim (Option-cases (split s.name ifnamsiz)) [
    | inl other ↦ rw (on, other) t
    | inr ((parent, vid), e) ↦
        rw (on, e) (add-IsTable tab max parent vid (split_held s.name parent vid e) t).0
  ]
]

add-declares :
    (tab : List Declared) (max : ℕ) (parent : CString) (vid : ℕ) (p : CString) (v : ℕ)
    → length parent < ifnamsiz
    → declares (add tab max parent vid).0 p v ≡ true
    → (declares tab p v ≡ true) ⊎ ((vid ≡ v) × (parent ≡ p))
add-declares tab max parent vid p v l d = elim (Bool-cases (declares tab p v)) [
  | inl before ↦ inl before
  | inr fresh ↦ elim (add-cases tab max parent vid l) [
    | inl (known, e) ↦ inl (rw e at d)
    | inr (inl (new, room, e)) ↦ inl (rw e at d)
    | inr (inr (new, room, e)) ↦
        let not_full : (add tab max parent vid).1 ≢ full =
          λ f. (let g : added ≡ full = rw e at f in absurd cc) in
        let q = declares-add tab max parent vid l not_full p v in
        let same : (vid == v && str_eq parent p) ≡ true = ground (arith, q, d, fresh) in
        inr (ground arith, str_eq→eq parent p (ground arith))
  ]
]

declare_one-declares :
    (s : Segment) (tab : List Declared) (max : ℕ) (p : CString) (v : ℕ)
    → declares (declare_one s tab max).0 p v ≡ true
    → (declares tab p v ≡ true) ⊎ ((s.ignore ≡ false) × IsVlanName s.name ifnamsiz p v)
declare_one-declares s tab max p v d = elim (Bool-cases s.ignore) [
  | inl off ↦ inl (rw off at d)
  | inr on ↦ elim (Option-cases (split s.name ifnamsiz)) [
    | inl other ↦ inl (rw (on, other) at d)
    | inr ((parent, vid), e) ↦
        let d' : declares (add tab max parent vid).0 p v ≡ true = rw (on, e) at d in
        elim (add-declares tab max parent vid p v (split_held s.name parent vid e) d') [
          | inl before ↦ inl before
          | inr (q, r) ↦ inr (on, rw (← q, ← r) ((split_iff s.name ifnamsiz parent vid).0 e))
        ]
  ]
]

-- A table within its bound, with nothing new but what the segments say.
pub record IsSound (segs : List Segment) (tab : List Declared) (max : ℕ) (made : List Declared)
    : Type 0 where
  pub table : IsTable max made
  pub written :
      (p : CString) (v : ℕ)
      → declares made p v ≡ true
      → (declares tab p v ≡ true) ⊎ Written segs p v

declared_from-IsSound :
    (segs : List Segment) (tab : List Declared) (max n : ℕ)
    → IsTable max tab
    → IsSound segs tab max (declared_from segs tab max n).0
unfolding declared_from
declared_from-IsSound [] tab max n t = record { table = t; written = λ p v d. inl d }
declared_from-IsSound (s ∷ segs) tab max n t =
    let t' = declare_one-IsTable s tab max t in
    after (λ m. declared_from-IsSound segs (declare_one s tab max).0 max m t')
      (declare_one s tab max).1
  where
    first :
        (p : CString) (v : ℕ)
        → declares (declare_one s tab max).0 p v ≡ true
        → (declares tab p v ≡ true) ⊎ Written (s ∷ segs) p v
    first p v d = elim (declare_one-declares s tab max p v d) [
      | inl before ↦ inl before
      | inr here ↦ inr (inl here)
    ]

    later :
        (made : List Declared)
        → IsSound segs (declare_one s tab max).0 max made
        → IsSound (s ∷ segs) tab max made
    later made i = record {
      table = i.table;
      written = λ p v d. elim (i.written p v d) [
        | inl before ↦ first p v before
        | inr rest ↦ inr (inr rest)
      ];
    }

    after :
        ((m : ℕ)
          → IsSound segs
              (declare_one s tab max).0
              max
              (declared_from segs (declare_one s tab max).0 max m).0)
        → (r : Added)
        → IsSound
            (s ∷ segs)
            tab
            max
            (after_one (λ u m. declared_from segs u max m) (declare_one s tab max).0 n r).0
    after go full = record { table = declare_one-IsTable s tab max t; written = first }
    after go duplicate = later _ (go n)
    after go added = later _ (go (n + 1))

-- The VLANs that a configuration declares fill the table within its bound and without a repetition,
-- and each of them stood there before or is the name of a segment that is not switched off.
pub declared-IsSound :
    (c : Conf) (tab : List Declared) (max : ℕ)
    → IsTable max tab
    → IsSound c.segments tab max (declared c tab max).0
unfolding declared
declared-IsSound c tab max t = declared_from-IsSound c.segments tab max 0 t

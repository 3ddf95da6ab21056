-- ===== src/DeclaredVlan/Table.antt =====
-- The table of declared VLANs (src/reac_declared_vlan.c).
use reac_pw.Prelude.{
  ℕ, ◌≤◌, ◌-◌, ◌<◌, ◌≡◌, refl, ◌≢◌, ◌⊎◌, ◌↔◌, inl, inr, true, false, ◌&&◌, ◌||◌, List, [], ◌∷◌,
  ◌++◌, arith, Bool-cases, length, length-append, take-short, ◌==◌,
}
use reac_pw.Prelude.Bytes.{CString, str_eq, str_eq→eq, str_eq_comm}
use reac_pw.DeclaredVlan.{Declared, full, duplicate, added, ifnamsiz, declares, add}

-- No VLAN stands twice in the table.
abbrev pub NoTwice : List Declared → Type 0
NoTwice [] = Unit
NoTwice (d ∷ tab) = (declares tab d.parent d.vid ≡ false) × NoTwice tab

pub record IsTable (max : ℕ) (tab : List Declared) : Type 0 where
  pub bounded : length tab ≤ max
  pub once : NoTwice tab

declares-append :
    (tab : List Declared) (d : Declared) (p : CString) (v : ℕ)
    → declares (tab ++ d ∷ []) p v ≡ (declares tab p v || (d.vid == v && str_eq d.parent p))
declares-append [] d p v = ground arith
declares-append (e ∷ tab) d p v = ground (arith, declares-append tab d p v)

once-append :
    (tab : List Declared) (d : Declared)
    → NoTwice tab
    → declares tab d.parent d.vid ≡ false
    → NoTwice (tab ++ d ∷ [])
once-append [] d n h = (refl, tt)
once-append (e ∷ tab) d n h = (
  ground (arith, declares-append tab d e.parent e.vid, str_eq_comm e.parent d.parent),
  once-append tab d n.1 (ground arith),
)

pub entry : CString → ℕ → Declared
entry parent vid = record { parent = parent; vid = vid }

pub add-cases :
    (tab : List Declared) (max : ℕ) (parent : CString) (vid : ℕ)
    → length parent < ifnamsiz
    → ((declares tab parent vid ≡ true) × (add tab max parent vid ≡ (tab, duplicate)))
      ⊎ ((declares tab parent vid ≡ false)
          × (max ≤ length tab)
          × (add tab max parent vid ≡ (tab, full)))
      ⊎ ((declares tab parent vid ≡ false)
          × (length tab < max)
          × (add tab max parent vid ≡ (tab ++ entry parent vid ∷ [], added)))
unfolding add entry
add-cases tab max parent vid l = ground (arith, take-short (ifnamsiz - 1) parent)

-- Adding keeps the table within its bound with no VLAN twice, for a parent of an interface's
-- length; it answers that the table is full exactly where a new VLAN meets the bound.
pub add-IsTable :
    (tab : List Declared) (max : ℕ) (parent : CString) (vid : ℕ)
    → length parent < ifnamsiz
    → IsTable max tab
    → IsTable max (add tab max parent vid).0
      × (((add tab max parent vid).1 ≡ full)
          ↔ ((declares tab parent vid ≡ false) × (length tab ≡ max)))
add-IsTable tab max parent vid l t = elim (add-cases tab max parent vid l) [
  | inl (d, e) ↦ rw e (t, ((λ f. cc), λ f. cc))
  | inr (inl (d, m, e)) ↦ rw e (t, ((λ f. (d, omega arith)), λ f. refl))
  | inr (inr (d, m, e)) ↦ rw e (
    record {
      bounded = omega (arith, length-append tab (entry parent vid ∷ []));
      once = once-append tab (entry parent vid) t.once (unfold entry in d);
    },
    ((λ f. cc), λ f. absurd (omega arith)),
  )
]

declares-absorbs :
    (tab : List Declared) (parent p : CString) (vid v : ℕ)
    → declares tab parent vid ≡ true
    → declares tab p v ≡ (declares tab p v || vid == v && str_eq parent p)
declares-absorbs tab parent p vid v d = elim (Bool-cases (vid == v && str_eq parent p)) [
  | inl same ↦
      let q : parent ≡ p = str_eq→eq parent p (ground arith) in
      let u : vid ≡ v = ground arith in rw (same, (rw (q, u) at d))
  | inr other ↦ rw other (ground arith)
]

-- Unless the table was full, the VLAN is declared afterwards, and no other answer changes.
pub declares-add :
    (tab : List Declared) (max : ℕ) (parent : CString) (vid : ℕ)
    → length parent < ifnamsiz
    → (add tab max parent vid).1 ≢ full
    → (p : CString) (v : ℕ)
    → declares (add tab max parent vid).0 p v ≡ (declares tab p v || vid == v && str_eq parent p)
unfolding entry
declares-add tab max parent vid l f p v = elim (add-cases tab max parent vid l) [
  | inl (d, e) ↦ rw e (declares-absorbs tab parent p vid v d)
  | inr (inl (d, m, e)) ↦ absurd (f (rw e))
  | inr (inr (d, m, e)) ↦ rw e (declares-append tab (entry parent vid) p v)
]

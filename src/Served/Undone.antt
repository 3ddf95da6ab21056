-- ===== src/Served/Undone.antt =====
-- What marking and unmarking in src/reac_served_mark.c leave alone.
use reac_pw.Prelude.{
  ℕ, ◌≡◌, ◌≢◌, take, refl, ap, ◌∙◌, inl, inr, Bool, true, false, not, ◌&&◌, Option, none, some,
  List, [], ◌∷◌, arith, Bool-cases,
}
use reac_pw.Prelude.Bytes.{CString, codes, str_eq, str_eq→eq}
use reac_pw.Served.{
  Verdict, mark, ours, leave_vlan, leave_host, decide, alias_prefix, served_alias, Marks, Link,
  Read, unread, link, wrote, act_on, mark_read, served_mark, unmark_read, unmark_names, unmark_all,
}

abbrev pub is_mark : Verdict → Bool
is_mark mark = true
is_mark ours = false
is_mark leave_vlan = false
is_mark leave_host = false

abbrev pub will_mark : Read → Bool
will_mark (unread e) = false
will_mark (link l) = is_mark (decide l.kind l.alias)

abbrev pub is_served : Read → Bool
is_served (unread e) = false
is_served (link l) = str_eq l.alias served_alias

-- A link that is not to be marked and does not carry the mark.
abbrev pub foreign : Read → Bool
foreign r = not (will_mark r) && not (is_served r)

-- A link that the daemon does not own, by what is read of it.
pub data IsForeign : Read → Type 0 where
  unreadable : {e : ℕ} → IsForeign (unread e)
  host_vlan : {l : Link} → l.kind ≡ codes "vlan" → l.alias ≡ [] → IsForeign (link l)
  host_alias : {l : Link} → l.alias ≢ [] → take 8 l.alias ≢ codes "reac-pw:" → IsForeign (link l)
  other_alias :
      {l : Link}
      → take 8 l.alias ≡ codes "reac-pw:"
      → l.alias ≢ codes "reac-pw:served"
      → IsForeign (link l)

str_eq_differs : (a b : CString) → a ≢ b → str_eq a b ≡ false
str_eq_differs a b n = elim (Bool-cases (str_eq a b)) [
  | inl e ↦ absurd (n (str_eq→eq a b e))
  | inr e ↦ e
]

foreign_vlan :
    (kind alias : CString)
    → kind ≡ codes "vlan"
    → alias ≡ []
    → foreign (link (record { kind = kind; alias = alias })) ≡ true
unfolding decide served_alias
foreign_vlan kind alias k a = rw (k, a) refl

foreign_alias :
    (kind alias : CString)
    → alias ≢ []
    → take 8 alias ≢ codes "reac-pw:"
    → foreign (link (record { kind = kind; alias = alias })) ≡ true
unfolding decide alias_prefix served_alias
foreign_alias kind [] n p = absurd (n refl)
foreign_alias kind (c ∷ alias) n p =
    elim (Bool-cases (str_eq (c ∷ alias) (codes "reac-pw:served"))) [
      | inl e ↦ absurd (p (ap (take 8) (str_eq→eq (c ∷ alias) (codes "reac-pw:served") e)))
      | inr e ↦ rw (e, str_eq_differs (take 8 (c ∷ alias)) (codes "reac-pw:") p) refl
    ]

foreign_other :
    (kind alias : CString)
    → take 8 alias ≡ codes "reac-pw:"
    → alias ≢ codes "reac-pw:served"
    → foreign (link (record { kind = kind; alias = alias })) ≡ true
unfolding decide alias_prefix served_alias
foreign_other kind [] p n = absurd cc
foreign_other kind (c ∷ alias) p n =
    let prefixed : str_eq (take 8 (c ∷ alias)) (codes "reac-pw:") ≡ true =
      ap (λ a. str_eq a (codes "reac-pw:")) p in
    rw (str_eq_differs (c ∷ alias) (codes "reac-pw:served") n, prefixed) refl

IsForeign-foreign : (r : Read) → IsForeign r → foreign r ≡ true
IsForeign-foreign (unread e) unreadable = refl
IsForeign-foreign (link l) (host_vlan k a) = foreign_vlan l.kind l.alias k a
IsForeign-foreign (link l) (host_alias n p) = foreign_alias l.kind l.alias n p
IsForeign-foreign (link l) (other_alias p n) = foreign_other l.kind l.alias p n

module _ {Host : Type 0} (ifnamsiz : ℕ) (alias_read : Host → CString → Read)
    (alias_write : Host → CString → CString → Host × Option ℕ) where
  -- A write to a link changes what is read of no other.
  abbrev pub Others : Type 0
  Others =
      (host : Host) (name alias other : CString)
      → str_eq name other ≡ false
      → alias_read (alias_write host name alias).0 other ≡ alias_read host other

  pub wrote-host :
      (m : Marks) (name : CString) (host : Host) (e : Option ℕ)
      → (wrote ifnamsiz alias_read alias_write m name host e).0 ≡ host
  wrote-host m name host none = refl
  wrote-host m name host (some e) = refl

  pub act_on-other :
      (host : Host) (m : Marks) (name alias other : CString) (v : Verdict)
      → Others
      → (is_mark v ≡ true → str_eq name other ≡ false)
      → alias_read (act_on ifnamsiz alias_read alias_write host m name alias v).0 other
        ≡ alias_read host other
  act_on-other host m name alias other mark o apart =
      ap (λ h. alias_read h other)
        (wrote-host m name (alias_write host name served_alias).0
          (alias_write host name served_alias).1)
      ∙ o host name served_alias other (apart refl)
  act_on-other host m name alias other ours o apart = refl
  act_on-other host m name alias other leave_vlan o apart = refl
  act_on-other host m name alias other leave_host o apart = refl

  pub mark_read-other :
      (host : Host) (m : Marks) (name other : CString) (r : Read)
      → Others
      → (will_mark r ≡ true → str_eq name other ≡ false)
      → alias_read (mark_read ifnamsiz alias_read alias_write host m name r).0 other
        ≡ alias_read host other
  mark_read-other host m name other (unread e) o apart = refl
  mark_read-other host m name other (link l) o apart =
      act_on-other host m name l.alias other (decide l.kind l.alias) o apart

  pub unmark_read-other :
      (host : Host) (name other : CString) (r : Read)
      → Others
      → (is_served r ≡ true → str_eq name other ≡ false)
      → alias_read (unmark_read ifnamsiz alias_read alias_write host name r) other
        ≡ alias_read host other
  unmark_read-other host name other (unread e) o apart = refl
  unmark_read-other host name other (link l) o apart =
      elim (Bool-cases (str_eq l.alias served_alias)) [
        | inl e ↦ rw e (o host name [] other (apart e))
        | inr e ↦ rw e
      ]

  -- A link that is about to be written is none that is to be left.
  pub foreign-apart :
      (host : Host) (name other : CString) (test : Read → Bool)
      → ((r : Read) → foreign r ≡ true → test r ≡ false)
      → foreign (alias_read host other) ≡ true
      → test (alias_read host name) ≡ true
      → str_eq name other ≡ false
  foreign-apart host name other test no_test f t = elim (Bool-cases (str_eq name other)) [
    | inl e ↦ absurd (
        ground (
          arith,
          no_test (alias_read host other) f,
          ap (λ n. test (alias_read host n)) (str_eq→eq name other e),
        ))
    | inr e ↦ e
  ]

  pub foreign-will_mark : (r : Read) → foreign r ≡ true → will_mark r ≡ false
  foreign-will_mark r f = ground arith

  pub foreign-is_served : (r : Read) → foreign r ≡ true → is_served r ≡ false
  foreign-is_served r f = ground arith

  pub served_mark-other :
      (host : Host) (m : Marks) (name other : CString)
      → Others
      → foreign (alias_read host other) ≡ true
      → alias_read (served_mark ifnamsiz alias_read alias_write host m name).0 other
        ≡ alias_read host other
  unfolding served_mark
  served_mark-other host m [] other o f = refl
  served_mark-other host m (c ∷ name) other o f =
      mark_read-other host m (c ∷ name) other (alias_read host (c ∷ name)) o
        (foreign-apart host (c ∷ name) other will_mark foreign-will_mark f)

  pub unmark_names-other :
      (m : Marks) (host : Host) (other : CString)
      → Others
      → foreign (alias_read host other) ≡ true
      → alias_read (unmark_names ifnamsiz alias_read alias_write host m) other
        ≡ alias_read host other
  unfolding unmark_names
  unmark_names-other [] host other o f = refl
  unmark_names-other (name ∷ m) host other o f =
      let step =
        unmark_read-other host name other (alias_read host name) o
          (foreign-apart host name other is_served foreign-is_served f) in
      unmark_names-other m
        (unmark_read ifnamsiz alias_read alias_write host name (alias_read host name)) other o
        (ap foreign step ∙ f)
      ∙ step

  -- The daemon's run: it marks the interfaces that it serves.
  abbrev pub marks : Host → Marks → List CString → Host × Marks
  marks host m [] = (host, m)
  marks host m (name ∷ names) =
      let (host', m', answer) = served_mark ifnamsiz alias_read alias_write host m name in
      marks host' m' names

  marks-other :
      (names : List CString) (host : Host) (m : Marks) (other : CString)
      → Others
      → foreign (alias_read host other) ≡ true
      → (alias_read (marks host m names).0 other ≡ alias_read host other)
        × (alias_read
              (unmark_all ifnamsiz alias_read alias_write
                (marks host m names).0
                (marks host m names).1).0
              other
            ≡ alias_read host other)
  marks-other [] host m other o f = (refl, unmark_names-other m host other o f)
  marks-other (name ∷ names) host m other o f =
      let step = served_mark-other host m name other o f in
      let (host', m', answer) = served_mark ifnamsiz alias_read alias_write host m name in
      let (kept, undone) = marks-other names host' m' other o (ap foreign step ∙ f) in
      (kept ∙ step, undone ∙ step)

  -- Where a write changes the link it names and no other: whatever interfaces the daemon serves, and
  -- whether or not they are unmarked at the end, a link that cannot be read, a VLAN that the host made
  -- and gave no alias, a link with an alias of the host's, and one with another alias of the daemon's
  -- than the mark, read afterwards as they did before.
  pub marks-foreign :
      (names : List CString) (host : Host) (m : Marks) (other : CString)
      → Others
      → IsForeign (alias_read host other)
      → (alias_read (marks host m names).0 other ≡ alias_read host other)
        × (alias_read
              (unmark_all ifnamsiz alias_read alias_write
                (marks host m names).0
                (marks host m names).1).0
              other
            ≡ alias_read host other)
  marks-foreign names host m other o f =
      marks-other names host m other o (IsForeign-foreign (alias_read host other) f)

-- ===== src/DeclaredVlan/Split.antt =====
-- What reac_declared_vlan_split accepts (src/reac_declared_vlan.c).
use reac_pw.Prelude.{
  ℕ, ◌+◌, ◌≤◌, ◌<◌, ◌≡◌, refl, ◌↔◌, inl, inr, true, [], ◌∷◌, ◌++◌, arith, none, some, Option-cases,
  length, length-append, all,
}
use reac_pw.Prelude.Bytes.{CString}
use reac_pw.DeclaredVlan.{ifnamsiz, is_digit, name_ok, last_dot, decimal, split_at, split}

last_dot-eq :
    (s before tail : CString) → last_dot s ≡ some (before, tail) → s ≡ before ++ b'.' ∷ tail
unfolding last_dot
last_dot-eq [] before tail e = cc
last_dot-eq (c ∷ s) before tail e = elim (Option-cases (last_dot s)) [
  | inl n ↦ ground (arith, n)
  | inr ((b, t), m) ↦ ground (arith, m, last_dot-eq s b t m)
]

digits-last_dot : (ds : CString) → all is_digit ds ≡ true → last_dot ds ≡ none
unfolding last_dot
digits-last_dot [] h = refl
digits-last_dot (c ∷ ds) h = ground (arith, digits-last_dot ds)

last_dot-digits :
    (before ds : CString)
    → all is_digit ds ≡ true
    → last_dot (before ++ b'.' ∷ ds) ≡ some (before, ds)
unfolding last_dot
last_dot-digits [] ds h = rw (digits-last_dot ds h)
last_dot-digits (c ∷ before) ds h = rw (last_dot-digits before ds h)

-- What a VLAN segment's name is made of.
pub record IsVlanName (segment : CString) (room : ℕ) (parent : CString) (vid : ℕ) : Type 0 where
  pub tail : CString
  pub joined : segment ≡ parent ++ b'.' ∷ tail
  pub digits : all is_digit tail ≡ true
  pub reads : decimal 0 tail ≡ vid
  pub from_one : 1 ≤ vid
  pub in_range : vid ≤ 4094
  pub held : length parent < room
  pub whole : length segment < ifnamsiz
  pub plain : name_ok parent ≡ true

split_at-facts :
    (room : ℕ) (segment parent tail p : CString) (v : ℕ)
    → split_at room segment parent tail ≡ some (p, v)
    → (p ≡ parent)
      × (decimal 0 tail ≡ v)
      × (all is_digit tail ≡ true)
      × (1 ≤ v)
      × (v ≤ 4094)
      × (length parent < room)
      × (length segment < ifnamsiz)
      × (name_ok parent ≡ true)
split_at-facts room segment parent tail p v e = ground arith

split-cases :
    (segment : CString) (room : ℕ) (parent : CString) (vid : ℕ)
    → split segment room ≡ some (parent, vid)
    → IsVlanName segment room parent vid
unfolding split
split-cases segment room parent vid e = elim (Option-cases (last_dot segment)) [
  | inl n ↦ absurd (ground (arith, n))
  | inr ((b, t), m) ↦
      let f = split_at-facts room segment b t parent vid (ground (arith, m)) in
      record {
        tail = t;
        joined = rw f.0 (last_dot-eq segment b t m);
        digits = f.2;
        reads = f.1;
        from_one = f.3;
        in_range = f.4;
        held = rw f.0 f.5;
        whole = f.6;
        plain = rw f.0 f.7;
      }
]

split_at-accepts :
    (room : ℕ) (segment parent tail : CString)
    → all is_digit tail ≡ true
    → 1 ≤ decimal 0 tail
    → decimal 0 tail ≤ 4094
    → length parent < room
    → length parent < ifnamsiz
    → length segment < ifnamsiz
    → name_ok parent ≡ true
    → split_at room segment parent tail ≡ some (parent, decimal 0 tail)
split_at-accepts room segment [] tail d l h r i w p = cc
split_at-accepts room segment (c ∷ parent) [] d l h r i w p = absurd (omega arith)
split_at-accepts room segment (c ∷ parent) (t ∷ tail) d l h r i w p = ground arith

split-accepts :
    (segment : CString) (room : ℕ) (parent : CString) (vid : ℕ)
    → IsVlanName segment room parent vid
    → split segment room ≡ some (parent, vid)
unfolding split
split-accepts segment room parent vid n =
    let m : last_dot segment ≡ some (parent, n.tail) =
      rw n.joined (last_dot-digits parent n.tail n.digits) in
    let long : length segment ≡ length parent + length (b'.' ∷ n.tail) =
      rw n.joined (length-append parent (b'.' ∷ n.tail)) in
    let fits : split_at room segment parent n.tail ≡ some (parent, decimal 0 n.tail) =
      split_at-accepts room segment parent n.tail n.digits (omega arith) (omega arith) n.held
        (omega arith) n.whole n.plain in
    rw m (ground (arith, fits, n.held, n.reads))

-- A segment's name splits into a parent and a VID exactly when it is the parent, a dot and the
-- digits of a VID from 1 to 4094, with the parent in its buffer, the whole name short enough for
-- an interface, and nothing in the parent's name but letters, digits and `.-:_`.
pub split_iff :
    (segment : CString) (room : ℕ) (parent : CString) (vid : ℕ)
    → (split segment room ≡ some (parent, vid)) ↔ IsVlanName segment room parent vid
split_iff segment room parent vid =
    (split-cases segment room parent vid, split-accepts segment room parent vid)

-- ===== src/Headamp/Walk.antt =====
-- What the walk over a controller's parameters takes from them (src/reac_headamp_prop.c).
use mathlib.Core.List.{append-nil, append_assoc}
use reac_pw.Prelude.{
  ℕ, ◌+◌, ◌≤◌, ◌<◌, ◌≡◌, ◌≢◌, refl, sym, ap, ◌∙◌, Bool, true, false, Bool-cases, inl, inr, Option,
  none, some, List, [], ◌∷◌, ◌++◌, if◌then◌else◌, take-drop, arith, length, length-append, leb, ltb,
  take, drop,
}
use reac_pw.Prelude.Bytes.{CString, codes, str_eq→eq}
use reac_pw.Headamp.{Refuse, is_nothing, Facts, value_in_range}
use reac_pw.Headamp.Parse.{
  Setting, Answer, refused, accepted, parse_key, Pod, text, boolean, integer, float, other, Cell,
  bad, good, in_range, cell_of, value_pod_to_byte, Result, first, take_cell, has_prefix, walk,
}
use reac_pw.Prelude.Int.{pos, negsuc}
use reac_pw.Headamp.Said.{
  off, on, whole, near, all_read, full, takes, foreign, refuses, IsAnswer, parse_key-IsAnswer,
  value_in_range-IsWithin, IsWorth, Says, paired, Reads,
}

module _ (facts : Facts) where
  module _ {Float : Type 0} (nearest : Float → Option ℕ) where
    -- What a cell means behind a head-amp key.
    abbrev IsRead : CString → Pod facts nearest → Cell facts nearest → Type 0
    IsRead k pod (bad r) = is_nothing r ≡ false
    IsRead k pod (good s) = Says facts nearest k pod s

    value-IsWorth :
        (pod : Pod facts nearest) (v : ℕ)
        → value_pod_to_byte facts nearest pod ≡ some v
        → IsWorth facts nearest pod v
    unfolding value_pod_to_byte
    value-IsWorth (boolean true) v e = let is : v ≡ 1 = cc in rw is on
    value-IsWorth (boolean false) v e = let is : v ≡ 0 = cc in rw is off
    value-IsWorth (integer (pos n)) v e = elim (Bool-cases (ltb 255 n)) [
      | inl past ↦ absurd (let f = rw past at e in cc)
      | inr kept ↦
          let f = rw kept at e in let is : v ≡ n = cc in rw is (whole (ground (arith, kept)))
    ]
    value-IsWorth (integer (negsuc n)) v e = absurd cc
    value-IsWorth (float f) v e = near e
    value-IsWorth (text s) v e = absurd cc
    value-IsWorth other v e = absurd cc

    cell_of-IsRead :
        (k rest : CString) (a : Answer) (pod : Pod facts nearest)
        → k ≡ codes "reac.headamp." ++ rest
        → IsAnswer facts rest a
        → IsRead k pod (cell_of facts nearest a pod)
    cell_of-IsRead k rest (refused r) pod e h = h
    cell_of-IsRead k rest (accepted ch param) pod e h =
        valued (value_pod_to_byte facts nearest pod) refl
      where
        valued :
            (v : Option ℕ)
            → value_pod_to_byte facts nearest pod ≡ v
            → IsRead k pod (in_range facts nearest ch param v)
        valued none w = refl
        valued (some value) w = elim (Bool-cases (value_in_range facts param value)) [
          | inl fits ↦ rw fits (record {
            rest = rest;
            key = e;
            address = h;
            worth = value-IsWorth pod value w;
            within = value_in_range-IsWithin facts param value fits;
          })
          | inr wild ↦ rw wild refl
        ]

    -- What a walk over some pairs adds to a result: cells that the pairs say, and all of them where
    -- nothing is refused and the list is not full.
    pub record Adds (max : ℕ) (pairs : List (CString × Pod facts nearest))
        (r r' : Result facts nearest) : Type 0 where
      pub added : List Setting
      pub whole_list : Bool
      pub out : r'.out ≡ r.out ++ added
      pub reads : Reads facts nearest pairs added whole_list
      pub few : length r.out ≤ max → length r'.out ≤ max
      pub stays : is_nothing r.refusal ≡ false → is_nothing r'.refusal ≡ false
      pub clean : is_nothing r'.refusal ≡ true → length r'.out < max → whole_list ≡ true

    Adds-nothing : (max : ℕ) (r : Result facts nearest) (key : Option CString) → Adds max [] r r
    Adds-nothing max r key = record {
      added = [];
      whole_list = true;
      out = sym (append-nil r.out);
      reads = all_read;
      few = λ l. l;
      stays = λ e. e;
      clean = λ e l. refl;
    }

    first-refuses :
        (old new : Refuse)
        → is_nothing new ≡ false
        → is_nothing (first facts nearest old new) ≡ false
    first-refuses old new h = elim (Bool-cases (is_nothing old)) [
      | inl none_yet ↦ rw none_yet h
      | inr before ↦ rw before before
    ]

    first-stays :
        (old new : Refuse)
        → is_nothing old ≡ false
        → is_nothing (first facts nearest old new) ≡ false
    first-stays old new h = rw h h

    take_cell-Adds :
        (max : ℕ) (r : Result facts nearest) (k : CString) (pod : Pod facts nearest)
        (rest : List (Pod facts nearest)) (c : Cell facts nearest)
        → ((r' : Result facts nearest)
            → Adds max (paired facts nearest none rest) r' (walk facts nearest max r' none rest))
        → IsRead k pod c
        → let (r', is_full) = take_cell facts nearest max r c in
          Adds max
            ((k, pod) ∷ paired facts nearest none rest)
            r
            (if is_full then r' else walk facts nearest max r' none rest)
    take_cell-Adds max r k pod rest (bad b) more h =
        let v = more (record r { keys = r.keys + 1; refusal = first facts nearest r.refusal b }) in
        record {
          added = v.added;
          whole_list = false;
          out = v.out;
          reads = refuses v.reads;
          few = v.few;
          stays = λ e. v.stays (first-stays r.refusal b e);
          clean = λ e l. absurd (let f = v.stays (first-refuses r.refusal b h) in cc);
        }
    take_cell-Adds max r k pod rest (good s) more h = elim (Bool-cases (leb max (length r.out))) [
      | inl is_full ↦ rw is_full (record {
        added = [];
        whole_list = false;
        out = sym (append-nil r.out);
        reads = full;
        few = λ l. l;
        stays = λ e. e;
        clean = λ e l. absurd (ground (arith, is_full, l));
      })
      | inr room ↦
          let v = more (record r { out = r.out ++ s ∷ []; keys = r.keys + 1 }) in
          rw room (record {
            added = s ∷ v.added;
            whole_list = v.whole_list;
            out = v.out ∙ append_assoc r.out (s ∷ []) v.added;
            reads = takes h v.reads;
            few = λ l. v.few (ground (arith, room, length-append r.out (s ∷ [])));
            stays = v.stays;
            clean = v.clean;
          })
    ]

    foreign-Adds :
        (max : ℕ) (r r' : Result facts nearest) (k : CString) (pod : Pod facts nearest)
        (pairs : List (CString × Pod facts nearest))
        → ((rest : CString) → k ≢ codes "reac.headamp." ++ rest)
        → Adds max pairs r r'
        → Adds max ((k, pod) ∷ pairs) r r'
    foreign-Adds max r r' k pod pairs n v = record {
      added = v.added;
      whole_list = v.whole_list;
      out = v.out;
      reads = foreign n v.reads;
      few = v.few;
      stays = v.stays;
      clean = v.clean;
    }

    prefixed :
        (k : CString) → has_prefix facts nearest k ≡ true → k ≡ codes "reac.headamp." ++ drop 13 k
    prefixed k h =
        sym (take-drop 13 k)
        ∙ ap (λ t. t ++ drop 13 k) (str_eq→eq (take 13 k) (codes "reac.headamp.") h)

    unprefixed :
        (k : CString)
        → has_prefix facts nearest k ≡ false
        → (rest : CString) → k ≢ codes "reac.headamp." ++ rest
    unprefixed k h rest e =
        let has : has_prefix facts nearest k ≡ true = ap (has_prefix facts nearest) e in absurd cc

    pub walk-Adds :
        (max : ℕ) (r : Result facts nearest) (key : Option CString)
        (pods : List (Pod facts nearest))
        → Adds max (paired facts nearest key pods) r (walk facts nearest max r key pods)
    unfolding walk
    walk-Adds max r none [] = Adds-nothing max r none
    walk-Adds max r (some k) [] = Adds-nothing max r none
    walk-Adds max r none (text k ∷ rest) = walk-Adds max r (some k) rest
    walk-Adds max r none (boolean b ∷ rest) = walk-Adds max r none rest
    walk-Adds max r none (integer i ∷ rest) = walk-Adds max r none rest
    walk-Adds max r none (float f ∷ rest) = walk-Adds max r none rest
    walk-Adds max r none (other ∷ rest) = walk-Adds max r none rest
    walk-Adds max r (some k) (pod ∷ rest) = elim (Bool-cases (has_prefix facts nearest k)) [
      | inl ours ↦
          let a = parse_key facts (drop 13 k) in
          rw ours (
            take_cell-Adds max r k pod rest (cell_of facts nearest a pod)
              (λ r'. walk-Adds max r' none rest)
              (cell_of-IsRead k (drop 13 k) a pod (prefixed k ours)
                (parse_key-IsAnswer facts (drop 13 k))))
      | inr theirs ↦ rw theirs (
          foreign-Adds max r (walk facts nearest max r none rest) k pod
            (paired facts nearest none rest) (unprefixed k theirs) (walk-Adds max r none rest))
    ]

-- ===== src/Headamp/Accept.antt =====
-- The cells that a parse accepts (src/reac_headamp_prop.c and src/reac_headamp_state.c).
use reac_pw.Prelude.{
  ℕ, ◌≤◌, ◌<◌, ◌≡◌, refl, sym, Bool, true, Bool-cases, inl, inr, Option, none, some, List, [], ◌∷◌,
  All, arith, length, ◌==◌,
}
use reac_pw.Prelude.Bytes.{CString}
use reac_pw.Headamp.{nothing, is_nothing, Facts, Asserted, value_in_range, with_cell, asserted_set}
use reac_pw.Headamp.Parse.{Setting, Pod, Result, walk, prop_parse_result}
use mathlib.Core.Path.{subst}
use reac_pw.Headamp.Walk.{walk-Adds}
use reac_pw.Headamp.Said.{all_read, full, takes, foreign, refuses, IsWithin, paired, Reads}

-- The protocol's parameters are numbered below their count.
pub record IsNumbered (facts : Facts) : Type 0 where
  pub phantom : facts.phantom < facts.params
  pub pad : facts.pad < facts.params
  pub sens : facts.sens < facts.params

module _ (facts : Facts) where
  -- A setting that is not refused where it is asserted.
  pub IsSettable : Asserted → Setting → Type 0
  IsSettable t s =
      asserted_set facts t s.ch s.param s.value ≡ (with_cell facts t s.ch s.param s.value, true)

  settable :
      (t : Asserted) (s : Setting)
      → IsNumbered facts
      → s.ch < facts.max_ch
      → value_in_range facts s.param s.value ≡ true
      → IsSettable t s
  unfolding asserted_set IsSettable
  settable t s n c v = ground (arith, n.phantom, n.pad, n.sens, c, v)

  IsWithin-fits :
      (param value : ℕ) → IsWithin facts param value → value_in_range facts param value ≡ true
  IsWithin-fits param value w = elim (Bool-cases (param == facts.phantom)) [
    | inl p ↦ let v = w.switch (inl (ground (arith, p))) in ground (arith, p, v)
    | inr p ↦ elim (Bool-cases (param == facts.pad)) [
      | inl d ↦ let v = w.switch (inr (ground (arith, d))) in ground (arith, p, d, v)
      | inr d ↦
          let v = w.travel (λ e. ground (arith, p, e)) (λ e. ground (arith, d, e)) in
          let k = w.known in ground (arith, p, d, v, k)
    ]
  ]

  module _ {Float : Type 0} (nearest : Float → Option ℕ) where
    said-IsSettable :
        (t : Asserted) (pairs : List (CString × Pod facts nearest)) (out : List Setting)
        (whole_list : Bool)
        → IsNumbered facts
        → Reads facts nearest pairs out whole_list
        → All (IsSettable t) out
    said-IsSettable t pairs out whole_list n all_read = tt
    said-IsSettable t pairs out whole_list n full = tt
    said-IsSettable t ((k, pod) ∷ pairs) (s ∷ out) whole_list n (takes v more) = (
      settable t s n v.address.on_wire (IsWithin-fits s.param s.value v.within),
      said-IsSettable t pairs out whole_list n more,
    )
    said-IsSettable t ((k, pod) ∷ pairs) out whole_list n (foreign f more) =
        said-IsSettable t pairs out whole_list n more
    said-IsSettable t ((k, pod) ∷ pairs) out whole_list n (refuses {whole_list = w} more) =
        said-IsSettable t pairs out w n more

    -- A parse's answer, against the pairs of keys and values that it was given.
    pub record IsSound (max : ℕ) (pairs : List (CString × Pod facts nearest))
        (r : Result facts nearest) : Type 0 where
      pub whole_list : Bool
      pub reads : Reads facts nearest pairs r.out whole_list
      pub few : length r.out ≤ max
      pub clean : is_nothing r.refusal ≡ true → length r.out < max → whole_list ≡ true

    abbrev pub children_of : Option (List (Pod facts nearest)) → List (Pod facts nearest)
    children_of none = []
    children_of (some pods) = pods

    -- Whatever parameters a controller sends, a parse gives at most `max` cells, in the order of the keys
    -- that say them: each is the channel, the parameter by its word, and the value that a head-amp
    -- key and the value behind it spell out, on the wire and within the parameter's range, so
    -- that asserting it is never refused. Where no refusal is answered and the list is not full, no
    -- head-amp key is left out.
    pub prop_parse_result-IsSound :
        (children : Option (List (Pod facts nearest))) (max : ℕ) (t : Asserted)
        → IsNumbered facts
        → let r = prop_parse_result facts nearest children max in
          IsSound max (paired facts nearest none (children_of children)) r
          × All (IsSettable t) r.out
    unfolding prop_parse_result
    prop_parse_result-IsSound none max t n =
        (record { whole_list = true; reads = all_read; few = omega arith; clean = λ e l. refl }, tt)
    prop_parse_result-IsSound (some pods) max t n =
        let begun : Result facts nearest = record { out = []; keys = 0; refusal = nothing } in
        let v = walk-Adds facts nearest max begun none pods in
        let r = walk facts nearest max begun none pods in
        let pairs = paired facts nearest none pods in
        let reads : Reads facts nearest pairs r.out v.whole_list =
          subst (λ out. Reads facts nearest pairs out v.whole_list) (sym v.out) v.reads in
        (
          record {
            whole_list = v.whole_list;
            reads = reads;
            few = v.few (omega arith);
            clean = v.clean;
          },
          said-IsSettable t pairs r.out v.whole_list n reads,
        )

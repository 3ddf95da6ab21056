-- ===== src/Headamp/Said.antt =====
-- What a controller's parameters say of the head amps, apart from how src/reac_headamp_prop.c reads them.
use reac_pw.Prelude.{
  ℕ, ◌≤◌, ◌<◌, ◌≡◌, ◌≢◌, refl, ap, ◌∙◌, Bool, true, false, ◌&&◌, ◌||◌, Bool-cases, ◌⊎◌, inl, inr,
  Option, none, some, List, [], ◌∷◌, ◌++◌, arith, leb, ltb, ◌==◌,
}
use reac_pw.Prelude.Int.{pos}
use reac_pw.Prelude.Bytes.{CString, codes, str_eq, str_eq→eq}
use reac_pw.Headamp.{Facts, is_nothing, value_in_range}
use reac_pw.Headamp.Parse.{
  Setting, Answer, refused, accepted, param_name_to_id, cell_at, after_channel, channel_of,
  parse_key, strtol, Pod, text, boolean, integer, float, other,
}

module _ (facts : Facts) where
  -- A parameter's word and its number.
  pub data Names : CString → ℕ → Type 0 where
    phantom : Names (codes "phantom") facts.phantom
    pad : Names (codes "pad") facts.pad
    sens : Names (codes "sens") facts.sens

  -- A value that a parameter can take: a switch is off or on, the sensitivity has its travel.
  pub record IsWithin (param value : ℕ) : Type 0 where
    pub known : (param ≡ facts.phantom) ⊎ (param ≡ facts.pad) ⊎ (param ≡ facts.sens)
    pub switch : (param ≡ facts.phantom) ⊎ (param ≡ facts.pad) → value ≤ 1
    pub travel : param ≢ facts.phantom → param ≢ facts.pad → value ≤ facts.sens_max

  -- A key behind its prefix: a channel of the wire, a dot, and a parameter's word.
  pub record IsAddress (rest : CString) (ch param : ℕ) : Type 0 where
    pub negative : Bool
    pub word : CString
    pub number : strtol rest ≡ some (negative, ch, b'.' ∷ word)
    pub above : negative ≡ true → ch ≡ 0
    pub on_wire : ch < facts.max_ch
    pub names : Names word param

  module _ {Float : Type 0} (nearest : Float → Option ℕ) where
    -- The byte that a value stands for.
    pub data IsWorth : Pod facts nearest → ℕ → Type 0 where
      off : IsWorth (boolean false) 0
      on : IsWorth (boolean true) 1
      whole : {n : ℕ} → n ≤ 255 → IsWorth (integer (pos n)) n
      near : {f : Float} {n : ℕ} → nearest f ≡ some n → IsWorth (float f) n

    -- A pair of key and value says that a cell has a value.
    pub record Says (k : CString) (pod : Pod facts nearest) (s : Setting) : Type 0 where
      pub rest : CString
      pub key : k ≡ codes "reac.headamp." ++ rest
      pub address : IsAddress rest s.ch s.param
      pub worth : IsWorth pod s.value
      pub within : IsWithin s.param s.value

    -- What a parameters' struct pairs: keys and values by turns, a key that is no text passed over.
    abbrev pub paired :
        Option CString → List (Pod facts nearest) → List (CString × Pod facts nearest)
    paired key [] = []
    paired none (text k ∷ pods) = paired (some k) pods
    paired none (boolean b ∷ pods) = paired none pods
    paired none (integer i ∷ pods) = paired none pods
    paired none (float f ∷ pods) = paired none pods
    paired none (other ∷ pods) = paired none pods
    paired (some k) (pod ∷ pods) = (k, pod) ∷ paired none pods

    -- Cells are those that pairs say, in the pairs' order; `true` where no head-amp key is left out.
    pub data Reads : List (CString × Pod facts nearest) → List Setting → Bool → Type 0 where
      all_read : Reads [] [] true
      full : {pairs : List (CString × Pod facts nearest)} → Reads pairs [] false
      takes :
          {k : CString} {pod : Pod facts nearest} {pairs : List (CString × Pod facts nearest)}
          {s : Setting} {out : List Setting} {whole_list : Bool}
          → Says k pod s
          → Reads pairs out whole_list
          → Reads ((k, pod) ∷ pairs) (s ∷ out) whole_list
      foreign :
          {k : CString} {pod : Pod facts nearest} {pairs : List (CString × Pod facts nearest)}
          {out : List Setting} {whole_list : Bool}
          → ((rest : CString) → k ≢ codes "reac.headamp." ++ rest)
          → Reads pairs out whole_list
          → Reads ((k, pod) ∷ pairs) out whole_list
      refuses :
          {k : CString} {pod : Pod facts nearest} {pairs : List (CString × Pod facts nearest)}
          {out : List Setting} {whole_list : Bool}
          → Reads pairs out whole_list
          → Reads ((k, pod) ∷ pairs) out false

  param_name_to_id-Names :
      (word : CString) (param : ℕ) → param_name_to_id facts word ≡ some param → Names word param
  unfolding param_name_to_id
  param_name_to_id-Names word param e = elim (Bool-cases (str_eq word (codes "phantom"))) [
    | inl p ↦ let q = rw p at e in rw (str_eq→eq word (codes "phantom") p, ← number q) phantom
    | inr p ↦ elim (Bool-cases (str_eq word (codes "pad"))) [
      | inl d ↦ let q = rw (p, d) at e in rw (str_eq→eq word (codes "pad") d, ← number q) pad
      | inr d ↦ elim (Bool-cases (str_eq word (codes "sens"))) [
        | inl s ↦ let q = rw (p, d, s) at e in rw (str_eq→eq word (codes "sens") s, ← number q) sens
        | inr s ↦ let q = rw (p, d, s) at e in absurd cc
      ]
    ]
  ]
    where
      number : {a b : ℕ} → some a ≡ some b → a ≡ b
      number q = cc

  pub value_in_range-IsWithin :
      (param value : ℕ) → value_in_range facts param value ≡ true → IsWithin param value
  value_in_range-IsWithin param value e = record {
    known = ground (arith, e);
    switch = λ o. ground (arith, e, o);
    travel = λ n m. ground (arith, e, n, m);
  }

  -- What an answer to a key means.
  abbrev pub IsAnswer : CString → Answer → Type 0
  IsAnswer rest (refused r) = is_nothing r ≡ false
  IsAnswer rest (accepted ch param) = IsAddress rest ch param

  pub parse_key-IsAnswer : (rest : CString) → IsAnswer rest (parse_key facts rest)
  unfolding parse_key
  parse_key-IsAnswer rest = of_channel (strtol rest) refl
    where
      of_id :
          (negative : Bool) (ch : ℕ) (word : CString) (id : Option ℕ)
          → strtol rest ≡ some (negative, ch, b'.' ∷ word)
          → param_name_to_id facts word ≡ id
          → IsAnswer rest (cell_at facts negative ch id)
      of_id negative ch word none n e = refl
      of_id negative ch word (some param) n e =
          elim (Bool-cases (negative && ltb 0 ch || leb facts.max_ch ch)) [
            | inl past ↦ rw past refl
            | inr kept ↦ rw kept (record {
              negative = negative;
              word = word;
              number = n;
              above = λ m. ground (arith, kept, m);
              on_wire = ground (arith, kept);
              names = param_name_to_id-Names word param e;
            })
          ]

      of_rest :
          (negative : Bool) (ch : ℕ) (s : CString)
          → strtol rest ≡ some (negative, ch, s)
          → IsAnswer rest (after_channel facts negative ch s)
      of_rest negative ch [] n = refl
      of_rest negative ch (c ∷ word) n = elim (Bool-cases (c == b'.')) [
        | inl dot ↦
            let is_dot : c ≡ b'.' = ground (arith, dot) in
            rw dot (
              of_id negative ch word (param_name_to_id facts word)
                (n ∙ ap (λ d. some (negative, ch, d ∷ word)) is_dot) refl)
        | inr glued ↦ rw glued refl
      ]

      of_channel :
          (o : Option (Bool × ℕ × CString)) → strtol rest ≡ o → IsAnswer rest (channel_of facts o)
      of_channel none n = refl
      of_channel (some (negative, ch, s)) n = of_rest negative ch s n

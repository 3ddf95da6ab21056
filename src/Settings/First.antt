-- ===== src/Settings/First.antt =====
-- The first value under a setting's key decides, whatever else the parameters carry.
use reac_pw.Prelude.{
  ◌≡◌, refl, Bool, true, false, Option, none, some, List, [], ◌∷◌, ◌++◌, if◌then◌else◌,
}
use reac_pw.Prelude.Bytes.{CString, str_eq}
use reac_pw.Settings.{Pod, text, integer, float, other, Parsed, absent, walk, params, prop_parse}

-- What a controller sends for a setting: pods that are no key, and then the key and its value.
pub record Entry (Float : Type 0) : Type 0 where
  pub padding : List (Pod Float)
  pub key : CString
  pub value : Pod Float

module _ {Float : Type 0} where
  abbrev pub is_key : Pod Float → Bool
  is_key (text s) = true
  is_key (integer i) = false
  is_key (float f) = false
  is_key other = false

  abbrev pub Keyless : List (Pod Float) → Type 0
  Keyless [] = Unit
  Keyless (p ∷ ps) = (is_key p ≡ false) × Keyless ps

  abbrev pub Padded : List (Entry Float) → Type 0
  Padded [] = Unit
  Padded (e ∷ es) = Keyless e.padding × Padded es

  abbrev pub sent : List (Entry Float) → List (Pod Float)
  sent [] = []
  sent (e ∷ es) = e.padding ++ text e.key ∷ e.value ∷ sent es

  abbrev pub lookup : CString → List (Entry Float) → Option (Pod Float)
  lookup name [] = none
  lookup name (e ∷ es) =
      let later = lookup name es in if str_eq e.key name then some e.value else later

  module _ {A : Type 0} (name : CString) (read : Pod Float → Parsed A) where
    abbrev pub read_first : Option (Pod Float) → Parsed A
    read_first none = absent
    read_first (some v) = read v

    walk-nil : walk name read none [] ≡ absent
    unfolding walk
    walk-nil = refl

    pub walk-append :
        (pads more : List (Pod Float))
        → Keyless pads
        → walk name read none (pads ++ more) ≡ walk name read none more
    unfolding walk
    walk-append [] more h = refl
    walk-append (text s ∷ pads) more h = absurd cc
    walk-append (integer i ∷ pads) more h = walk-append pads more h.1
    walk-append (float f ∷ pads) more h = walk-append pads more h.1
    walk-append (other ∷ pads) more h = walk-append pads more h.1

    pub walk-pair :
        (k : CString) (v : Pod Float) (more : List (Pod Float))
        → walk name read none (text k ∷ v ∷ more)
          ≡ (if str_eq k name then read v else walk name read none more)
    unfolding walk
    walk-pair k v more = refl

    pub read_first-pick :
        (b : Bool) (v : Pod Float) (later : Option (Pod Float))
        → (if b then read v else read_first later) ≡ read_first (if b then some v else later)
    read_first-pick true v later = refl
    read_first-pick false v later = refl

    -- Whatever list of keys and values a controller sends, with pods that are no strings between
    -- them, the setting is read from the value under the first of its keys and from nothing else: a
    -- value that is a string is never taken for a key.
    pub prop_parse-sent :
        (es : List (Entry Float))
        → Padded es
        → prop_parse name read (params (sent es)) ≡ read_first (lookup name es)
    prop_parse-sent [] h = walk-nil
    prop_parse-sent (e ∷ es) h = rw (
      walk-append e.padding (text e.key ∷ e.value ∷ sent es) h.0,
      walk-pair e.key e.value (sent es),
      prop_parse-sent es h.1,
      read_first-pick (str_eq e.key name) e.value (lookup name es),
    )

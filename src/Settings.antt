-- ===== src/Settings.antt =====
-- src/reac_rate_cfg.c and src/reac_role_cfg.c: the settings that a controller writes to a segment's
-- door, its rate and its role. This file is what both read from PipeWire's parameters: a flat struct
-- of keys and values by turns, in which the first value under the setting's key decides. Of
-- PipeWire's pods the code reads strings, integers and floats; the nearest integer to a float
-- (`reac_float_nearest` within an `int`) is a parameter.
pub mod Rate
pub mod Role
pub mod First
pub mod Decide
mod Tests
use reac_pw.Prelude.{Bool, Option, none, some, List, [], ◌∷◌, if◌then◌else◌}
use reac_pw.Prelude.Int.{ℤ}
use reac_pw.Prelude.Bytes.{CString, str_eq}

pub data Pod (Float : Type 0) : Type 0 where
  text : CString → Pod Float
  integer : ℤ → Pod Float
  float : Float → Pod Float
  other : Pod Float

-- What a walk answers: -1, 0, or 1 with the value read.
pub data Parsed (A : Type 0) : Type 0 where
  unusable absent : Parsed A
  found : A → Parsed A

-- The parameters handed over: no Props object, one without such a struct, or the struct's children.
pub data Props (Float : Type 0) : Type 0 where
  not_props no_params : Props Float
  params : List (Pod Float) → Props Float

module _ {Float : Type 0} where
  abbrev pub key_of : Pod Float → Option CString
  key_of (text s) = some s
  key_of (integer i) = none
  key_of (float f) = none
  key_of other = none

  unfoldable pub value_pod_to_int : (Float → Option ℤ) → Pod Float → Option ℤ
  value_pod_to_int nearest (text s) = none
  value_pod_to_int nearest (integer i) = some i
  value_pod_to_int nearest (float f) = nearest f
  value_pod_to_int nearest other = none

  module _ {A : Type 0} (name : CString) (read : Pod Float → Parsed A) where
    unfoldable pub walk : Option CString → List (Pod Float) → Parsed A
    walk key [] = absent
    walk none (child ∷ rest) = walk (key_of child) rest
    walk (some k) (child ∷ rest) =
        let more = walk none rest in if str_eq k name then read child else more

    abbrev pub prop_parse : Props Float → Parsed A
    prop_parse not_props = unusable
    prop_parse no_params = absent
    prop_parse (params children) = walk none children

-- ===== src/Headamp/Parse.antt =====
-- A controller's parameters read as head-amp cells (src/reac_headamp_prop.c).
use reac_pw.Prelude.{
  ℕ, ◌+◌, ◌-◌, ◌*◌, Bool, true, false, ◌&&◌, ◌||◌, Option, none, some, List, [], ◌∷◌, ◌++◌, ltb,
  leb, ◌==◌, if◌then◌else◌, length, take, drop,
}
use reac_pw.Prelude.Int.{ℤ, pos, negsuc}
use reac_pw.Prelude.Bytes.{CString, codes, str_eq}
use reac_pw.DeclaredVlan.{is_digit}
use reac_pw.Headamp.{Refuse, nothing, bad_key, out_of_range, is_nothing, Facts, value_in_range}

abbrev pub is_space : ℕ → Bool
is_space c = c == b' ' || leb 9 c && leb c 13

abbrev pub skip_spaces : CString → CString
skip_spaces [] = []
skip_spaces (c ∷ s) = let rest = skip_spaces s in if is_space c then rest else c ∷ s

-- The digits at a text's start, their value, how many they are, and the text behind them.
abbrev pub leading : ℕ → ℕ → CString → ℕ × ℕ × CString
leading acc n [] = (acc, n, [])
leading acc n (c ∷ s) =
    let more = leading (acc * 10 + (c - b'0')) (n + 1) s in
    if is_digit c then more else (acc, n, c ∷ s)

-- `strtol` to base ten: whether the number is negative, its size, and the rest; none without digits.
abbrev pub unsigned_long : Bool → CString → Option (Bool × ℕ × CString)
unsigned_long negative s =
    let (value, n, rest) = leading 0 0 s in if n == 0 then none else some (negative, value, rest)

abbrev pub signed_long : CString → Option (Bool × ℕ × CString)
signed_long [] = none
signed_long (c ∷ s) =
    if c == b'-'
    then unsigned_long true s
    else if c == b'+'
    then unsigned_long false s
    else unsigned_long false (c ∷ s)

unfoldable pub strtol : CString → Option (Bool × ℕ × CString)
strtol s = signed_long (skip_spaces s)

-- `struct reac_headamp_setting`.
pub record Setting : Type 0 where
  pub ch : ℕ
  pub param : ℕ
  pub value : ℕ

pub data Answer : Type 0 where
  refused : Refuse → Answer
  accepted : ℕ → ℕ → Answer

module _ (facts : Facts) where
  unfoldable pub param_name_to_id : CString → Option ℕ
  param_name_to_id name =
      if str_eq name (codes "phantom")
      then some facts.phantom
      else if str_eq name (codes "pad")
      then some facts.pad
      else if str_eq name (codes "sens")
      then some facts.sens
      else none

  abbrev pub cell_at : Bool → ℕ → Option ℕ → Answer
  cell_at negative ch none = refused bad_key
  cell_at negative ch (some param) =
      if negative && ltb 0 ch || leb facts.max_ch ch
      then refused out_of_range
      else accepted ch param

  abbrev pub after_channel : Bool → ℕ → CString → Answer
  after_channel negative ch [] = refused bad_key
  after_channel negative ch (c ∷ name) =
      if c == b'.' then cell_at negative ch (param_name_to_id name) else refused bad_key

  abbrev pub channel_of : Option (Bool × ℕ × CString) → Answer
  channel_of none = refused bad_key
  channel_of (some (negative, ch, rest)) = after_channel negative ch rest

  -- The channel and parameter of a key, behind its prefix.
  unfoldable pub parse_key : CString → Answer
  parse_key rest = channel_of (strtol rest)

  module _ {Float : Type 0} (nearest : Float → Option ℕ) where
    -- A pod that the code can read; `nearest` is `reac_float_nearest` within a byte.
    pub data Pod : Type 0 where
      text : CString → Pod
      boolean : Bool → Pod
      integer : ℤ → Pod
      float : Float → Pod
      other : Pod

    abbrev pub int_byte : ℤ → Option ℕ
    int_byte (pos n) = if ltb 255 n then none else some n
    int_byte (negsuc n) = none

    unfoldable pub value_pod_to_byte : Pod → Option ℕ
    value_pod_to_byte (boolean b) = some (if b then 1 else 0)
    value_pod_to_byte (integer i) = int_byte i
    value_pod_to_byte (float f) = nearest f
    value_pod_to_byte (text s) = none
    value_pod_to_byte other = none

    pub data Cell : Type 0 where
      bad : Refuse → Cell
      good : Setting → Cell

    abbrev pub in_range : ℕ → ℕ → Option ℕ → Cell
    in_range ch param none = bad out_of_range
    in_range ch param (some value) =
        if value_in_range facts param value
        then good (record { ch = ch; param = param; value = value })
        else bad out_of_range

    abbrev pub cell_of : Answer → Pod → Cell
    cell_of (refused r) pod = bad r
    cell_of (accepted ch param) pod = in_range ch param (value_pod_to_byte pod)

    abbrev pub prefix : CString
    prefix = codes "reac.headamp."

    abbrev pub has_prefix : CString → Bool
    has_prefix k = str_eq (take (length prefix) k) prefix

    pub record Result : Type 0 where
      pub out : List Setting
      pub keys : ℕ
      pub refusal : Refuse

    -- The first refusal stays.
    abbrev pub first : Refuse → Refuse → Refuse
    first old new = if is_nothing old then new else old

    -- One pair of key and value: the result after it, and whether the list is full.
    abbrev pub take_cell : ℕ → Result → Cell → Result × Bool
    take_cell max r (bad b) = (record r { keys = r.keys + 1; refusal = first r.refusal b }, false)
    take_cell max r (good s) =
        if leb max (length r.out)
        then (record r { keys = r.keys + 1 }, true)
        else (record r { out = r.out ++ s ∷ []; keys = r.keys + 1 }, false)

    abbrev pub pair : ℕ → Result → CString → Pod → Result × Bool
    pair max r k pod =
        if has_prefix k
        then take_cell max r (cell_of (parse_key (drop (length prefix) k)) pod)
        else (r, false)

    abbrev pub key_of : Pod → Option CString
    key_of (text s) = some s
    key_of (boolean b) = none
    key_of (integer i) = none
    key_of (float f) = none
    key_of other = none

    -- The struct's children, keys and values by turns; a key that is no string is passed over.
    unfoldable pub walk : ℕ → Result → Option CString → List Pod → Result
    walk max r key [] = r
    walk max r none (child ∷ rest) = walk max r (key_of child) rest
    walk max r (some k) (child ∷ rest) =
        let (r', full) = pair max r k child in
        let more = walk max r' none rest in if full then r' else more

    -- What the parameters' struct holds; one that is absent or no struct holds nothing.
    unfoldable pub prop_parse_result : Option (List Pod) → ℕ → Result
    prop_parse_result none max = record { out = []; keys = 0; refusal = nothing }
    prop_parse_result (some children) max =
        walk max (record { out = []; keys = 0; refusal = nothing }) none children

-- ===== src/Segconf/Text.antt =====
-- The text functions of src/reac_segconf.c: lines, blanks, comments, quotes and letter case.
use reac_pw.Prelude.{
  ℕ, ◌+◌, Bool, true, false, ◌&&◌, ◌||◌, Option, none, some, List, [], ◌∷◌, leb, ◌==◌,
  if◌then◌else◌, map,
}
use reac_pw.Prelude.Bytes.{CString, codes, str_eq}

abbrev pub blank : ℕ → Bool
blank c = c == b' ' || c == 9

-- Blank, or a carriage return.
abbrev pub space : ℕ → Bool
space c = c == b' ' || c == 9 || c == 13

abbrev pub trim_start : CString → CString
trim_start [] = []
trim_start (c ∷ s) = if space c then trim_start s else c ∷ s

abbrev pub push_end : ℕ → CString → CString
push_end c [] = if space c then [] else c ∷ []
push_end c (d ∷ s) = c ∷ d ∷ s

abbrev pub trim_end : CString → CString
trim_end [] = []
trim_end (c ∷ s) = push_end c (trim_end s)

unfoldable pub trim : CString → CString
trim s = trim_end (trim_start s)

abbrev pub strip : Bool → CString → CString
strip at_word [] = []
strip at_word (c ∷ s) =
    let rest = strip (blank c) s in if (c == b'#' || c == b';') && at_word then [] else c ∷ rest

unfoldable pub strip_comment : CString → CString
strip_comment s = strip true s

abbrev pub keep_head : ℕ → Option CString → Option CString
keep_head c none = none
keep_head c (some t) = some (c ∷ t)

-- All but the last byte, if that is `q`.
abbrev pub before_last : ℕ → CString → Option CString
before_last q [] = none
before_last q (c ∷ []) = if c == q then some [] else none
before_last q (c ∷ d ∷ s) = keep_head c (before_last q (d ∷ s))

abbrev pub unquoted : CString → Option CString → CString
unquoted v none = v
unquoted v (some t) = t

unfoldable pub unquote : CString → CString
unquote [] = []
unquote (q ∷ rest) =
    if q == b'"' || q == 39 then unquoted (q ∷ rest) (before_last q rest) else q ∷ rest

-- What stands before and behind the first `mark` (`strchr`).
abbrev pub found_first : ℕ → Option (CString × CString) → Option (CString × CString)
found_first c none = none
found_first c (some (before, tail)) = some (c ∷ before, tail)

unfoldable pub split_first : ℕ → CString → Option (CString × CString)
split_first mark [] = none
split_first mark (c ∷ s) =
    let rest = found_first c (split_first mark s) in if c == mark then some ([], s) else rest

abbrev pub lower : ℕ → ℕ
lower c = if leb b'A' c && leb c b'Z' then c + 32 else c

unfoldable pub fold_case : CString → CString
fold_case s = map lower s

-- strcasecmp(a, b) == 0.
abbrev pub case_eq : CString → CString → Bool
case_eq a b = str_eq (map lower a) (map lower b)

abbrev pub starts_line : ℕ → List CString → List CString
starts_line c [] = (c ∷ []) ∷ []
starts_line c (l ∷ ls) = (c ∷ l) ∷ ls

-- The lines that the loop over the text visits; a text that ends in a newline has no last empty one.
unfoldable pub lines : CString → List CString
lines [] = []
lines (c ∷ s) = let rest = lines s in if c == 10 then [] ∷ rest else starts_line c rest

-- The value of a Boolean key.
unfoldable pub parse_bool : CString → Option Bool
parse_bool v =
    if case_eq v (codes "yes") || case_eq v (codes "true") || str_eq v (codes "1")
    then some true
    else if case_eq v (codes "no") || case_eq v (codes "false") || str_eq v (codes "0")
    then some false
    else none

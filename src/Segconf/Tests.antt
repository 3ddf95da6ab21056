-- ===== src/Segconf/Tests.antt =====
-- Files read into the configuration, with a vocabulary of two roles and one known model
-- (src/reac_segconf.c).
use reac_pw.Prelude.{
  ◌≡◌, refl, ◌≢◌, Bool, Option, none, some, [], ◌∷◌, ◌++◌, arith, All, if◌then◌else◌,
}
use reac_pw.Prelude.Bytes.{CString, codes, str_eq}
use reac_pw.Segconf.{Conf, Intent, box, master, init}
use reac_pw.Segconf.Text.{lines, fold_case, trim, strip_comment, split_first}
use reac_pw.Segconf.Parse.{parse_file, segment_name}
use reac_pw.DeclaredVlan.Table.{IsTable}
use reac_pw.Segconf.Vlans.{IsSound, declared-IsSound}
use reac_pw.Segconf.Queries.{find, role, declared}
use reac_pw.Segconf.Frame.{opened}
use reac_pw.Segconf.Frame.Lines.{find-parse_file}
use reac_pw.Segconf.DropIn.Role.{drop_in}
use reac_pw.Segconf.DropIn.Pinned.{role-parse_file}

abbrev intents : CString → Option Intent
intents v =
    if str_eq v (codes "master")
    then some master
    else if str_eq v (codes "box")
    then some box
    else none

abbrev models : CString → Bool
models v = str_eq v (codes "s1608")

-- A box without its model, and a comment.
abbrev boxed : CString
boxed = codes "[segment eth0]" ++ 10 ∷ codes "role = box # the stage" ++ 10 ∷ []

abbrev pinned : CString
pinned = drop_in (codes "eth1") (codes "master")

abbrev after_boxed : Conf
after_boxed = parse_file intents models init boxed (codes "reac-pw.conf")

other_lines : All (λ raw. opened raw ≢ some (codes "eth1")) (lines boxed)
unfolding lines trim strip_comment split_first segment_name fold_case
other_lines = ((λ e. cc), ((λ e. cc), tt))

find-parse_file_example :
    find (parse_file intents models after_boxed boxed (codes "20.conf")) (codes "eth1")
    ≡ find after_boxed (codes "eth1")
find-parse_file_example =
    find-parse_file intents models after_boxed boxed (codes "20.conf") (codes "eth1") other_lines

master_folded : fold_case (codes "master") ≡ codes "master"
unfolding fold_case
master_folded = refl

role-parse_file_example :
    role (parse_file intents models init pinned (codes "10.conf")) (codes "eth1") ≡ some master
unfolding init
role-parse_file_example =
    role-parse_file intents models init (codes "eth1") (codes "master") (codes "10.conf") master
      (record { some_byte = omega arith; plainly = refl }) (omega arith)
      (record { some_byte = omega arith; plainly = refl }) master_folded (omega arith) refl
      (λ e. omega arith)

abbrev vlans : Conf
vlans = parse_file intents models init (codes "[segment eth0.7]" ++ 10 ∷ []) (codes "reac-pw.conf")

nothing_declared : IsTable 4 []
nothing_declared = record { bounded = omega arith; once = tt }

declared-IsSound_example : IsSound vlans.segments [] 4 (declared vlans [] 4).0
declared-IsSound_example = declared-IsSound vlans [] 4 nothing_declared

-- ===== src/Served.antt =====
-- src/reac_served_mark.c and src/reac_served_mark.h: the alias that marks a served interface as a REAC
-- wire, and its removal. The host's links stand behind `reac_link_alias_read` and
-- `reac_link_alias_write`, whose netlink is not modelled: they are parameters that read and write a
-- host, and answer an error number where they fail.
pub mod Undone
mod Tests
use reac_pw.Prelude.{
  ℕ, ◌-◌, Bool, true, false, ◌||◌, Option, none, some, List, [], ◌∷◌, ◌++◌, leb, if◌then◌else◌,
  length, take,
}
use reac_pw.Prelude.Bytes.{CString, codes, str_eq}
use reac_pw.Prelude.Members.{member}

unfoldable pub alias_prefix : CString
alias_prefix = codes "reac-pw:"

unfoldable pub served_alias : CString
served_alias = codes "reac-pw:served"

abbrev pub served_max : ℕ
served_max = 32

pub data Verdict : Type 0 where
  mark ours leave_vlan leave_host : Verdict

abbrev pub decide_alias : CString → CString → Verdict
decide_alias kind [] = if str_eq kind (codes "vlan") then leave_vlan else mark
decide_alias kind (c ∷ alias) =
    if str_eq (take (length alias_prefix) (c ∷ alias)) alias_prefix then ours else leave_host

unfoldable pub decide : CString → CString → Verdict
decide kind alias = decide_alias kind alias

-- `struct reac_served_marks`: the names in order.
abbrev pub Marks : Type 0
Marks = List CString

-- `ifnamsiz` is the size of a name in the table.
unfoldable pub remember : ℕ → Marks → CString → Marks
remember ifnamsiz m ifname =
    if member ifname m
    then m
    else if leb served_max (length m)
    then m
    else m ++ take (ifnamsiz - 1) ifname ∷ []

-- A link's kind and alias.
pub record Link : Type 0 where
  pub kind : CString
  pub alias : CString

pub data Read : Type 0 where
  unread : ℕ → Read
  link : Link → Read

-- What a mark answers: an error number, or the verdict.
pub data Marked : Type 0 where
  invalid : Marked
  failed : ℕ → Marked
  done : Verdict → Marked

module _ {Host : Type 0} (ifnamsiz : ℕ) (alias_read : Host → CString → Read)
    (alias_write : Host → CString → CString → Host × Option ℕ) where
  abbrev pub wrote : Marks → CString → Host → Option ℕ → Host × Marks × Marked
  wrote m ifname host none = (host, remember ifnamsiz m ifname, done mark)
  wrote m ifname host (some e) = (host, m, failed e)

  abbrev pub act_on : Host → Marks → CString → CString → Verdict → Host × Marks × Marked
  act_on host m ifname alias mark =
      let (host', e) = alias_write host ifname served_alias in wrote m ifname host' e
  act_on host m ifname alias ours =
      (host, if str_eq alias served_alias then remember ifnamsiz m ifname else m, done ours)
  act_on host m ifname alias leave_vlan = (host, m, done leave_vlan)
  act_on host m ifname alias leave_host = (host, m, done leave_host)

  abbrev pub mark_read : Host → Marks → CString → Read → Host × Marks × Marked
  mark_read host m ifname (unread e) = (host, m, failed e)
  mark_read host m ifname (link l) = act_on host m ifname l.alias (decide l.kind l.alias)

  abbrev pub mark_named : Host → Marks → CString → Host × Marks × Marked
  mark_named host m [] = (host, m, invalid)
  mark_named host m (c ∷ name) = mark_read host m (c ∷ name) (alias_read host (c ∷ name))

  unfoldable pub served_mark : Host → Marks → CString → Host × Marks × Marked
  served_mark host m ifname = mark_named host m ifname

  abbrev pub unmark_read : Host → CString → Read → Host
  unmark_read host name (unread e) = host
  unmark_read host name (link l) =
      if str_eq l.alias served_alias then (alias_write host name []).0 else host

  unfoldable pub unmark_names : Host → Marks → Host
  unmark_names host [] = host
  unmark_names host (name ∷ m) = unmark_names (unmark_read host name (alias_read host name)) m

  abbrev pub unmark_all : Host → Marks → Host × Marks
  unmark_all host m = (unmark_names host m, [])

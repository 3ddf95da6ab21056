-- ===== src/Served/Tests.antt =====
-- A host with a bare port, a VLAN of its own and a port with an alias of its own
-- (src/reac_served_mark.c).
use reac_pw.Prelude.{ℕ, ◌≡◌, refl, Option, none, List, [], ◌∷◌, if◌then◌else◌}
use reac_pw.Prelude.Bytes.{CString, codes, str_eq}
use reac_pw.Served.{Read, unread, link, unmark_all}
use reac_pw.Served.Undone.{Others, host_vlan, marks, marks-foreign}

abbrev Host : Type 0
Host = CString → Read

abbrev wire : Host
wire name =
    if str_eq name (codes "eth0")
    then link (record { kind = []; alias = [] })
    else if str_eq name (codes "eth0.7")
    then link (record { kind = codes "vlan"; alias = [] })
    else if str_eq name (codes "eth1")
    then link (record { kind = []; alias = codes "office" })
    else unread 19

abbrev asked : Host → CString → Read
asked host name = host name

abbrev relabel : CString → Read → Read
relabel alias (unread e) = unread e
relabel alias (link l) = link (record l { alias = alias })

abbrev written : Host → CString → CString → Host × Option ℕ
written host name alias =
    ((λ other. if str_eq name other then relabel alias (host other) else host other), none)

written-Others : Others 16 asked written
written-Others host name alias other h = rw h

abbrev served_names : List CString
served_names = codes "eth0" ∷ codes "eth1" ∷ codes "eth0.7" ∷ []

marks-foreign_example :
    (asked (marks 16 asked written wire [] served_names).0 (codes "eth0.7")
      ≡ asked wire (codes "eth0.7"))
    × (asked
          (unmark_all 16 asked written
            (marks 16 asked written wire [] served_names).0
            (marks 16 asked written wire [] served_names).1).0
          (codes "eth0.7")
        ≡ asked wire (codes "eth0.7"))
marks-foreign_example =
    marks-foreign 16 asked written served_names wire [] (codes "eth0.7") written-Others
      (host_vlan refl refl)

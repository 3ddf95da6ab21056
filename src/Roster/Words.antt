-- ===== src/Roster/Words.antt =====
-- The roster's words for a segment's state (src/reac_roster.c).
use reac_pw.Prelude.{Bool, if◌then◌else◌}
use reac_pw.Prelude.Bytes.{CString, codes}

pub data RosterState : Type 0 where
  probing established slave tap refused ignored listening knocking trunk : RosterState

abbrev pub state_name : RosterState → CString
state_name probing = codes "probing"
state_name established = codes "established"
state_name slave = codes "slave"
state_name tap = codes "tap"
state_name refused = codes "refused"
state_name ignored = codes "ignored"
state_name listening = codes "listening"
state_name knocking = codes "knocking"
state_name trunk = codes "trunk"

abbrev pub state_said : RosterState → CString
state_said listening = codes "listening: nothing heard here yet, and nothing is sent"
state_said knocking =
    codes "nothing heard here: knocking for a box now and then, inside a declared budget"
state_said trunk =
    codes "a trunk: its VLANs carry the boxes and are the segments; nothing is sent here"
state_said probing = codes "the master is running and no box is enrolled yet"
state_said established = codes "box enrolled: the master is running and its audio is on the graph"
state_said slave = codes "following the master on this wire"
state_said tap = codes "a desk masters this wire: listening to it and sending nothing"
state_said refused =
    codes "refused: this wire is not served; the journal says why and what to change"
state_said ignored = codes "switched off in the conf: never listened to, never sent on"

unfoldable pub probing_said : Bool → Bool → CString
probing_said pinned answered =
    if answered
    then codes "a box answered the knock: the master is running and enrolling it"
    else if pinned
    then codes "master pinned in the conf: streaming on link, no box enrolled yet"
    else codes "the master is running and no box is enrolled yet"

-- ===== src/Daemon/Budget.antt =====
-- A port's link budget among the daemon's masters: `link_port_of`, `link_used_kbit`,
-- `listener_budget_empty`, `port_siblings_served`, `hearing_drop`, `link_budget_yield` and the admission
-- in `listener_open` of src/main.c. The listener that asks is not among the slots here: it is not open
-- yet, and the source passes over it. What a poll reads of a listener's engine is part of its slot; that
-- the interface scan is told to serve a segment again is kept as the list of its names.
pub mod Yielded
pub mod Holders
pub mod Admitted
use reac_pw.Prelude.{
  ℕ, suc, ◌+◌, ◌-◌, Bool, true, false, not, ◌&&◌, ◌||◌, Option, none, some, List, [], ◌∷◌, ◌++◌,
  ltb, leb, ◌==◌, if◌then◌else◌, length, take,
}
use reac_pw.Prelude.Words.{u64}
use reac_pw.Prelude.Bytes.{CString, str_eq}
use reac_pw.DeclaredVlan.{ifnamsiz, split}
use reac_pw.LinkBudget.{cost_kbit, master_pps, fits}

-- The part of `struct listener` that the budget reads; a sink sends on `tx_if`.
pub record Slot : Type 0 where
  pub opened : Bool
  pub sink : Bool
  pub tap : Bool
  pub source : Option CString
  pub tx_if : Option CString
  pub sample_rate : ℕ
  pub role_pinned : Bool
  pub heard : Bool
  pub past_probing : Bool
  pub recognized : Bool

abbrev pub parent_or : CString → Option (CString × ℕ) → CString
parent_or name none = name
parent_or name (some (parent, vid)) = parent

-- The physical port: a VLAN's parent, or the interface itself.
unfoldable pub link_port_of : CString → CString
link_port_of name = take (ifnamsiz - 1) (parent_or name (split name ifnamsiz))

abbrev pub on_port : CString → Option CString → Bool
on_port port none = false
on_port port (some tx_if) = str_eq port (link_port_of tx_if)

-- facts/reac_facts.h, REAC_FRAME_BYTES.
abbrev pub frame_bytes : ℕ
frame_bytes = 1492

abbrev pub stream_kbit : ℕ → ℕ
stream_kbit sample_rate = cost_kbit (master_pps sample_rate) frame_bytes

-- What the masters on a port have committed.
unfoldable pub used_kbit : CString → List Slot → ℕ
used_kbit port [] = 0
used_kbit port (s ∷ slots) =
    let used = used_kbit port slots in
    if s.opened && s.sink && on_port port s.tx_if
    then u64 (used + stream_kbit s.sample_rate)
    else used

unfoldable pub budget_empty : Slot → Bool
budget_empty s =
    s.opened && s.sink && not s.tap && not s.heard && not s.past_probing && not s.recognized

-- The other segments on an interface's port that carry something.
unfoldable pub siblings_served : CString → List Slot → ℕ
siblings_served ifname [] = 0
siblings_served ifname (s ∷ slots) =
    let n = siblings_served ifname slots in
    if s.opened
      && is_other ifname s.tx_if
      && on_port (link_port_of ifname) s.tx_if
      && (s.heard || s.past_probing)
    then suc n
    else n
  where
    is_other : CString → Option CString → Bool
    is_other ifname none = false
    is_other ifname (some tx_if) = not (str_eq tx_if ifname)

abbrev pub port_siblings_served : CString → List Slot → ℕ
port_siblings_served [] slots = 0
port_siblings_served (c ∷ ifname) slots = siblings_served (c ∷ ifname) slots

-- A sniffer's two latches about the budget.
pub record Sniffer : Type 0 where
  pub name : CString
  pub budget_yielded : Bool
  pub budget_yield_said : Bool

pub record Hearing : Type 0 where
  pub slots : List Slot
  pub sniff : List Sniffer
  pub serve_failed : List CString

abbrev pub is_source : CString → Option CString → Bool
is_source name none = false
is_source name (some s) = str_eq s name

abbrev pub closed : Slot → Slot
closed s = record s { opened = false; sink = false }

-- The first open listener of the name is closed.
unfoldable pub drop_slot : CString → List Slot → List Slot
drop_slot name [] = []
drop_slot name (s ∷ slots) =
    let more = drop_slot name slots in
    if s.opened && is_source name s.source then closed s ∷ slots else s ∷ more

-- The first sniffer of the name is latched.
abbrev pub latch : CString → List Sniffer → List Sniffer
latch name [] = []
latch name (s ∷ sniff) =
    let more = latch name sniff in
    if str_eq s.name name
    then record s { budget_yielded = true; budget_yield_said = false } ∷ sniff
    else s ∷ more

unfoldable pub yield_one : CString → Hearing → Hearing
yield_one name h = record {
  slots = drop_slot name h.slots;
  sniff = latch name h.sniff;
  serve_failed = h.serve_failed ++ name ∷ [];
}

unfoldable pub yield_all : List CString → Hearing → Hearing
yield_all [] h = h
yield_all (name ∷ names) h = yield_all names (yield_one name h)

abbrev pub is_holder_of : CString → CString → Slot → Option CString → Bool
is_holder_of taker port s none = false
is_holder_of taker port s (some source) =
    s.opened && s.sink && not (str_eq source taker) && on_port port s.tx_if

abbrev pub name_of : Option CString → CString
name_of none = []
name_of (some source) = take (ifnamsiz - 1) source

abbrev pub then_name : CString → Option (List CString) → Option (List CString)
then_name name none = none
then_name name (some names) = some (name ∷ names)

-- The holders of the port, unless one of them carries something or is pinned.
unfoldable pub yielding : CString → CString → List Slot → Option (List CString)
yielding taker port [] = some []
yielding taker port (s ∷ slots) =
    let more = yielding taker port slots in
    if is_holder_of taker port s s.source
    then (if not (budget_empty s) || s.role_pinned then none else then_name (name_of s.source) more)
    else more

module _ (ifscan_max : ℕ) where
  abbrev pub yield_names : Option (List CString) → Hearing → Hearing × ℕ
  yield_names none h = (h, 0)
  yield_names (some names) h = (yield_all (take ifscan_max names) h, length (take ifscan_max names))

  unfoldable pub link_budget_yield : CString → CString → Hearing → Hearing × ℕ
  link_budget_yield taker tx_if h = yield_names (yielding taker (link_port_of tx_if) h.slots) h

  -- Whether a master of this rate is admitted to its link, and what had to yield for it.
  unfoldable pub admission : ℕ → CString → CString → ℕ → Bool → Hearing → Hearing × Bool
  admission link_mbit taker tx_if sample_rate wire_heard h =
      let port = link_port_of tx_if in
      let want = stream_kbit sample_rate in
      if fits link_mbit (used_kbit port h.slots) want
      then (h, true)
      else if not wire_heard
      then (h, false)
      else (let (h', n) = link_budget_yield taker tx_if h in
          (h', fits link_mbit (used_kbit port h'.slots) want))

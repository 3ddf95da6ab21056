-- ===== src/Qdisc.antt =====
-- src/reac_qdisc.c and src/reac_qdisc.h: the queueing discipline that the daemon installs for launch
-- times, and takes back. What it asks of the kernel, through libreac's requests, is a parameter; the
-- lines for the journal are left out. An answer of the kernel's is zero or an error's number.
pub mod Owned
pub mod Catchup
mod Tests
use reac_pw.Prelude.{
  ℕ, ◌+◌, ◌-◌, ◌*◌, ◌/◌, Bool, true, false, not, ◌&&◌, ◌||◌, Option, none, some, List, [], ◌∷◌, ltb,
  leb, ◌==◌, if◌then◌else◌, length, take,
}
use reac_pw.Prelude.Words.{u64}
use reac_pw.Prelude.Bytes.{CString}
use reac_pw.DeclaredVlan.{ifnamsiz}

-- libreac's answer about a device's root discipline.
pub data EtfState : Type 0 where
  present absent unreadable : EtfState

abbrev pub is_present : EtfState → Bool
is_present present = true
is_present _ = false

pub data Rc : Type 0 where
  done : Rc
  refused : ℕ → Rc

pub record Kernel : Type 1 where
  pub World : Type 0
  -- `if_nametoindex`: a device's index, from 1 on.
  pub index_of_name : World → CString → Option ℕ
  pub etf_state : World → ℕ → EtfState
  pub remove_etf : World → ℕ → World × Rc
  pub install_etf : World → ℕ → World × Rc

abbrev pub einval : ℕ
einval = 22

abbrev pub enodev : ℕ
enodev = 19

abbrev pub eio : ℕ
eio = 5

pub record Qdisc : Type 0 where
  pub ifname : CString
  pub ifindex : ℕ
  pub installed : Bool

abbrev pub cleared : Qdisc
cleared = record { ifname = []; ifindex = 0; installed = false }

abbrev pub named : CString → Qdisc
named name = record cleared { ifname = take (ifnamsiz - 1) name }

module _ (kernel : Kernel) where
  -- The thread backend: an etf found there is removed, and our own stays on record if that fails.
  abbrev pub after_removal : Qdisc → CString → ℕ → kernel.World × Rc → Qdisc × kernel.World × Rc
  after_removal ours name idx (k, done) = (named name, k, done)
  after_removal ours name idx (k, refused e) =
      if ours.installed && ours.ifindex == idx
      then (ours, k, refused e)
      else (named name, k, refused e)

  abbrev pub arm_thread : Qdisc → kernel.World → CString → ℕ → Qdisc × kernel.World × Rc
  arm_thread ours k name idx =
      if is_present (kernel.etf_state k idx)
      then after_removal ours name idx (kernel.remove_etf k idx)
      else (named name, k, done)

  -- The launch-time backend: an install counts once it is read back.
  abbrev pub after_install : CString → ℕ → kernel.World × Rc → Qdisc × kernel.World × Rc
  after_install name idx (k, refused e) = (named name, k, refused e)
  after_install name idx (k, done) =
      if is_present (kernel.etf_state k idx)
      then (record (named name) { ifindex = idx; installed = true }, k, done)
      else (named name, k, refused eio)

  abbrev pub arm_at : Qdisc → kernel.World → CString → Bool → Option ℕ → Qdisc × kernel.World × Rc
  arm_at q k name want_etf none = (cleared, k, refused enodev)
  arm_at q k name want_etf (some idx) =
      if want_etf
      then after_install name idx (kernel.install_etf k idx)
      else arm_thread q k name idx

  unfoldable pub arm : Qdisc → kernel.World → CString → Bool → Qdisc × kernel.World × Rc
  arm q k name want_etf =
      if length name == 0
      then (cleared, k, refused einval)
      else arm_at q k name want_etf (kernel.index_of_name k name)

  unfoldable pub disarm : Qdisc → kernel.World → CString → Qdisc × kernel.World × Rc
  disarm q k name = arm q k name false

  unfoldable pub release : Qdisc → kernel.World → Qdisc × kernel.World
  release q k =
      if not q.installed || q.ifindex == 0
      then (cleared, k)
      else if is_present (kernel.etf_state k q.ifindex)
      then (cleared, (kernel.remove_etf k q.ifindex).0)
      else (cleared, k)

-- How many slots of lateness a lead repays; `delta_ns` is libreac's.
unfoldable pub etf_catchup_slots : ℕ → ℕ → ℕ → ℕ
etf_catchup_slots delta_ns lead_us fps =
    if fps == 0
    then 1
    else (let usable = if ltb (delta_ns / 1000) lead_us then lead_us - delta_ns / 1000 else 0 in
        let n = u64 (usable * fps) / 1_000_000 in
        if ltb n 1 then 1 else if ltb 1_000_000 n then 1_000_000 else n)

-- ===== src/Qdisc/Owned.antt =====
-- The daemon never loses track of a discipline it installed (src/reac_qdisc.c).
use reac_pw.Prelude.{ℕ, ◌<◌, ◌≡◌, refl, ap, true, false, not, ◌||◌, some, arith, length, ◌==◌}
use reac_pw.Prelude.Bytes.{CString}
use reac_pw.Qdisc.{
  Kernel, Qdisc, Rc, done, refused, is_present, cleared, after_install, arm, release,
}

-- What the kernel's requests do to one device, where nobody else touches it: a removal that is
-- granted leaves no etf discipline, and an install that is refused (which removes first and then adds)
-- leaves none that was not there.
pub record IsFaithful (kernel : Kernel) (idx : ℕ) : Type 0 where
  pub removed :
      (k k' : kernel.World)
      → kernel.remove_etf k idx ≡ (k', done)
      → is_present (kernel.etf_state k' idx) ≡ false
  pub install_refused :
      (k k' : kernel.World) (e : ℕ)
      → kernel.install_etf k idx ≡ (k', refused e)
      → is_present (kernel.etf_state k' idx) ≡ true
      → is_present (kernel.etf_state k idx) ≡ true

-- An etf discipline on the device is on the daemon's record.
pub record IsOwned (kernel : Kernel) (idx : ℕ) (q : Qdisc) (k : kernel.World) : Type 0 where
  pub recorded :
      is_present (kernel.etf_state k idx) ≡ true → (q.installed ≡ true) × (q.ifindex ≡ idx)

module _ (kernel : Kernel) (idx : ℕ) (faithful : IsFaithful kernel idx) where
  -- A discipline that was on the device is still there after an install was refused.
  pub Left : kernel.World → Type 0
  Left k =
      ((n : ℕ) × ((kernel.install_etf k idx).1 ≡ refused n))
      × (is_present (kernel.etf_state k idx) ≡ true)
      × (is_present (kernel.etf_state (kernel.install_etf k idx).0 idx) ≡ true)

  -- The exception loses the record: a refused install keeps nothing of what was there before.
  arm-loses :
      (q : Qdisc) (k : kernel.World) (name : CString)
      → 0 < length name
      → kernel.index_of_name k name ≡ some idx
      → ((n : ℕ) × ((kernel.install_etf k idx).1 ≡ refused n))
      → (arm kernel q k name true).0.installed ≡ false
  unfolding arm
  arm-loses q k name l n (e, r) =
      let some_name : (length name == 0) ≡ false = ground (arith, l) in
      rw (some_name, n) (refused_lem (kernel.install_etf k idx) r)
    where
      refused_lem :
          (r : kernel.World × Rc)
          → r.1 ≡ refused e
          → (after_install kernel name idx r).0.installed ≡ false
      refused_lem (k', done) h = absurd cc
      refused_lem (k', refused m) h = refl

  -- What the daemon has on record it takes back when it exits: a discipline on that device is
  -- requested to be removed, and no record is left.
  pub release_takes_back :
      (q : Qdisc) (k : kernel.World)
      → 0 < idx
      → IsOwned kernel idx q k
      → is_present (kernel.etf_state k idx) ≡ true
      → release kernel q k ≡ (cleared, (kernel.remove_etf k idx).0)
  unfolding release
  release_takes_back q k l o p =
      let (i, at) = o.recorded p in
      let kept : (not q.installed || q.ifindex == 0) ≡ false = ground (arith, i, at, l) in
      let there : is_present (kernel.etf_state k q.ifindex) ≡ true = rw at p in
      rw (kept, there) (ap (λ n. (cleared, (kernel.remove_etf k n).0)) at)

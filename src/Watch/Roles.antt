-- ===== src/Watch/Roles.antt =====
-- What reac_watch_decide can and cannot overturn (src/reac_watch.c).
use reac_pw.Prelude.{ℕ, ◌+◌, ◌≤◌, ◌<◌, ◌^◌, ◌≡◌, ◌≢◌, ◌↔◌, ◌⊎◌, true, false, arith}
use reac_pw.Watch.{
  Act, WatchIn, hunting, master, slave, refused, stand, yield, retake, unrefuse, decide,
}

-- What the caller does with an act: a yield or a retake swaps the role, an unrefusal takes the door down.
abbrev pub obeyed : Act → WatchIn → WatchIn
obeyed stand x = x
obeyed yield x = record x { we_master = false }
obeyed retake x = record x { we_master = true }
obeyed unrefuse x = record x { door = false; vacant = false }

module _ (stale_ns : ℕ) where
  -- A role is handed over only on a running segment that nobody pinned: yielded just where we master
  -- it and the wire names another master, retaken just where we follow and the wire is ours.
  pub decide_roles :
      (x : WatchIn)
      → ((decide stale_ns x ≡ yield)
          ↔ ((x.door ≡ false) × (x.pinned ≡ false) × (x.verdict ≡ slave) × (x.we_master ≡ true)))
        × ((decide stale_ns x ≡ retake) ↔ (
            (x.door ≡ false) × (x.pinned ≡ false) × (x.verdict ≡ master) × (x.we_master ≡ false)))
  unfolding decide
  decide_roles x = ground arith

  -- A door comes down only on a verdict that decides the wire: at once where it was vacant, and
  -- otherwise only when the rival is not refused any more and the whole withdrawal window has passed
  -- since the sniffer opened.
  pub decide_door :
      (x : WatchIn)
      → x.now_ns < 2 ^ 64
      → ((decide stale_ns x ≡ unrefuse) ↔ (
          (x.door ≡ true)
          × (((x.vacant ≡ true) × (x.verdict ≢ hunting))
              ⊎ ((x.vacant ≡ false)
                  × (x.verdict ≢ refused)
                  × (x.opened_ns < x.now_ns)
                  × (x.opened_ns + stale_ns ≤ x.now_ns)))))
  unfolding decide
  decide_door x lt = ground arith

  -- No flapping: once an act on a role is carried out, the same evidence stands.
  pub decide_settles :
      (x : WatchIn) → x.door ≡ false → decide stale_ns (obeyed (decide stale_ns x) x) ≡ stand
  unfolding decide
  decide_settles x d = ground arith

-- ===== src/Recover/Pair.antt =====
-- The pair verdict of src/reac_node_recover.c, and the window that a rebuild quotes.
use reac_pw.Prelude.{◌+◌, ◌≡◌, ◌≢◌, Bool, true, false, ◌&&◌, ◌||◌, arith}
use reac_pw.Prelude.Bytes.{CString, codes}
use reac_pw.Recover.{NodeRecover, wait, rebuild, init, window, spent, step, step_pair, pair_name}

-- A rebuild or a give-up names a side that is missing, quotes that side's own reason, and blames by
-- name just the sides that are missing; with both sides there the ladder starts afresh.
pub step_pair_blames :
    (r : NodeRecover) (src sink : Bool) (src_why sink_why : CString)
    → let (r', v) = step_pair r src src_why sink sink_why in
      (src && sink ≡ true → (r' ≡ init) × (v.act ≡ wait))
      × (v.act ≢ wait → (v.src_gone || v.sink_gone) ≡ true)
      × (src ≡ false → (v.src_gone ≡ true) × (v.why ≡ src_why))
      × (src ≡ true → sink ≡ false → (v.sink_gone ≡ true) × (v.why ≡ sink_why))
      × (src ≡ false → sink ≡ true → pair_name v ≡ codes "reac-capture")
      × (src ≡ true → sink ≡ false → pair_name v ≡ codes "reac-playback")
      × (src ≡ false → sink ≡ false → pair_name v ≡ codes "reac-capture and reac-playback")
unfolding step_pair pair_name step
step_pair_blames r true true a b = ground arith
step_pair_blames r true false a b = ground arith
step_pair_blames r false true a b = ground arith
step_pair_blames r false false a b = ground arith

-- After a rebuild the window to quote is the one that was waited out.
pub spent-step :
    (r : NodeRecover) (on : Bool)
    → (step r on).1 ≡ rebuild
    → (spent (step r on).0 ≡ window r) × ((step r on).0.attempts ≡ r.attempts + 1)
unfolding step spent window
spent-step r on h = ground arith

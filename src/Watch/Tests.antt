-- ===== src/Watch/Tests.antt =====
-- The watch table at work (src/reac_watch.c), with a withdrawal window of five seconds.
use reac_pw.Prelude.{ℕ, ◌*◌, ◌≡◌, refl, true, false}
use reac_pw.Prelude.Words.{second}
use reac_pw.Watch.{WatchIn, slave, stand, unrefuse, decide}
use reac_pw.Watch.Roles.{obeyed, decide_settles}

abbrev stale : ℕ
stale = 5 * second

abbrev claimed : WatchIn
claimed = record {
  door = false;
  we_master = true;
  pinned = false;
  vacant = false;
  verdict = slave;
  now_ns = 9 * second;
  opened_ns = second;
}

abbrev behind_door : WatchIn
behind_door = record claimed { door = true; we_master = false }

decide_settles_example : decide stale (obeyed (decide stale claimed) claimed) ≡ stand
decide_settles_example = decide_settles stale claimed refl

door_down : decide stale behind_door ≡ unrefuse
unfolding decide
door_down = refl

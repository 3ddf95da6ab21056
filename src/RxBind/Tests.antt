-- ===== src/RxBind/Tests.antt =====
-- Runs of the receive gate's binding (src/reac_rx_bind.c); the address is its own only byte.
use reac_pw.Prelude.{ℕ, ◌+◌, ◌≤◌, ◌<◌, ◌⊎◌, ◌≡◌, false, ◌&&◌, List, [], ◌∷◌, arith}
use reac_pw.RxBind.{Mac, bind_frames, stable_ns, tick}
use reac_pw.RxBind.Stable.{Event, ticks, hints, after, Named, Kept, LockedTo, moved-Named}

abbrev one_byte : ℕ → Mac
one_byte a = a ∷ []

abbrev named_once : List Event
named_once = ticks 7 9 1000 ∷ []

moved-Named_example :
    Kept one_byte
      (after one_byte named_once)
      (tick one_byte (after one_byte named_once) 7 9 600_000_000)
    ⊎ (LockedTo one_byte (one_byte 7) (tick one_byte (after one_byte named_once) 7 9 600_000_000)
        × (0 < 7)
        × (((after one_byte named_once).locked && (after one_byte named_once).from_hint) ≡ false)
        × (bind_frames ≤ 9)
        × ((since : ℕ) × Named one_byte (one_byte 7) since named_once
            × (since + stable_ns ≤ 600_000_000)))
moved-Named_example = moved-Named one_byte named_once 7 9 600_000_000 (omega arith)

abbrev hinted : List Event
hinted = ticks 7 9 600_000_000 ∷ ticks 7 9 1000 ∷ hints (one_byte 3) ∷ []

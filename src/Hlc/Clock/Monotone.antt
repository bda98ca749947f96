-- ===== src/Hlc/Clock/Monotone.antt =====
-- Each event moves the clock of src/hlc/clock.rs forward.
use little_key_value_db.Prelude.{ℕ, ◌+◌, ◌^◌, ◌≤◌, ◌<◌, lt, ◌≡◌, ◌↔◌, refl, arith}
use little_key_value_db.Hlc.Timestamp.{Timestamp, cmp, IsVersion}
use little_key_value_db.Hlc.WallClock.{WallClock}
use little_key_value_db.Hlc.Clock.{Clock, get_timestamp, receive_timestamp}

-- The logical time can be raised by one without a wrap.
abbrev pub HasRoom : Timestamp → Type 0
HasRoom t = t.logical_time + 1 < 2 ^ 32

-- The received timestamp shares the clock's wall time, which is ahead of the physical time, and its
-- logical time is ahead of the clock's.
pub record IsOvertaken (current_pt : ℕ) (incoming latest : Timestamp) : Type 0 where
  pub same_wall : incoming.wall_time ≡ latest.wall_time
  pub ahead_of_pt : current_pt < latest.wall_time
  pub logical_behind : latest.logical_time + 1 ≤ incoming.logical_time

module _ {S : Type 0} ⦃w : WallClock S⦄ where
  -- Each issued timestamp is later than the clock's previous one, becomes the clock's latest, and
  -- is not behind the physical time, if the previous one is no intent timestamp and its logical
  -- time can be raised.
  pub get_timestamp-later :
      (c : Clock S)
      → IsVersion c.latest_timestamp
      → HasRoom c.latest_timestamp
      → (cmp c.latest_timestamp (get_timestamp c).1 ≡ lt)
        × ((get_timestamp c).0.latest_timestamp ≡ (get_timestamp c).1)
        × (w.current_time c.wall_clock ≤ (get_timestamp c).1.wall_time)
  unfolding get_timestamp cmp
  get_timestamp-later c v r = (ground arith, refl, ground arith)

  -- Receiving a timestamp moves the clock past its previous timestamp, if neither logical time is
  -- at its maximum and the previous timestamp is no intent timestamp.
  pub receive_timestamp-later :
      (c : Clock S) (incoming : Timestamp)
      → IsVersion c.latest_timestamp
      → HasRoom c.latest_timestamp
      → HasRoom incoming
      → cmp c.latest_timestamp (receive_timestamp c incoming).latest_timestamp ≡ lt
  unfolding receive_timestamp cmp
  receive_timestamp-later c incoming v r s = ground arith

  -- Receiving a timestamp moves the clock past the received one exactly when the received one does
  -- not share the clock's wall time, ahead of the physical time, with a logical time ahead of the
  -- clock's; in that case the clock is left at or behind the received timestamp. Neither logical
  -- time is at its maximum, and the received timestamp is no intent timestamp.
  pub receive_timestamp-past_incoming :
      (c : Clock S) (incoming : Timestamp)
      → IsVersion incoming
      → HasRoom c.latest_timestamp
      → HasRoom incoming
      → (cmp incoming (receive_timestamp c incoming).latest_timestamp ≡ lt)
        ↔ ¬ IsOvertaken (w.current_time c.wall_clock) incoming c.latest_timestamp
  unfolding receive_timestamp cmp
  receive_timestamp-past_incoming c incoming v r s = (ground arith, ground arith)

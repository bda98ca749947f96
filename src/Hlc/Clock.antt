-- ===== src/Hlc/Clock.antt =====
-- src/hlc/clock.rs: the hybrid logical clock.
pub mod Monotone
use little_key_value_db.Prelude.{ℕ, ◌+◌, ◌%◌, ◌^◌, max, ◌&&◌, ◌==◌, if◌then◌else◌}
use little_key_value_db.Hlc.Timestamp.{Timestamp}
use little_key_value_db.Hlc.WallClock.{WallClock, Manual, manual_new}

pub record Clock (S : Type 0) : Type 0 where
  pub wall_clock : S
  pub latest_timestamp : Timestamp

-- The timestamp that `receive_timestamp` stores, from the three that it compares.
unfoldable pub received : ℕ → Timestamp → Timestamp → Timestamp
received current_pt incoming latest =
    let max_pt = max current_pt (max incoming.wall_time latest.wall_time) in
    if current_pt == incoming.wall_time && incoming.wall_time == latest.wall_time
    then record {
      wall_time = max_pt;
      logical_time = (max incoming.logical_time latest.logical_time + 1) % 2 ^ 32;
    }
    else if latest.wall_time == max_pt
    then record { wall_time = max_pt; logical_time = (latest.logical_time + 1) % 2 ^ 32 }
    else if max_pt == incoming.wall_time
    then record { wall_time = max_pt; logical_time = (incoming.logical_time + 1) % 2 ^ 32 }
    else record { wall_time = max_pt; logical_time = 0 }

-- The timestamp that `get_timestamp` stores and returns.
unfoldable pub issued : ℕ → Timestamp → Timestamp
issued current_pt latest =
    let max_pt = max latest.wall_time current_pt in
    if latest.wall_time == max_pt
    then record { wall_time = max_pt; logical_time = (latest.logical_time + 1) % 2 ^ 32 }
    else record { wall_time = max_pt; logical_time = 0 }

module _ {S : Type 0} ⦃w : WallClock S⦄ where
  unfoldable pub new : S → Clock S
  new clock = record {
    wall_clock = clock;
    latest_timestamp = record { wall_time = w.current_time clock; logical_time = 0 };
  }

  unfoldable pub receive_timestamp : Clock S → Timestamp → Clock S
  unfolding received
  receive_timestamp c incoming = record c {
    latest_timestamp = received (w.current_time c.wall_clock) incoming c.latest_timestamp;
  }

  unfoldable pub get_timestamp : Clock S → Clock S × Timestamp
  unfolding issued
  get_timestamp c =
      let t = issued (w.current_time c.wall_clock) c.latest_timestamp in
      (record c { latest_timestamp = t }, t)

-- `Clock::manual`
unfoldable pub manual : ℕ → Clock Manual
manual start_time = record {
  wall_clock = manual_new start_time;
  latest_timestamp = record { wall_time = start_time; logical_time = 0 };
}

-- ===== src/Tests/Times.antt =====
-- Timestamps and the manual clock.
use little_key_value_db.Prelude.{◌≡◌, ◌↔◌, lt, arith}
use little_key_value_db.Hlc.Timestamp.{Timestamp, cmp, IsWord, next_logical_timestamp}
use little_key_value_db.Hlc.Timestamp.Advance.{next_logical_timestamp-later}
use little_key_value_db.Hlc.WallClock.{Manual, manual_wall_clock}
use little_key_value_db.Hlc.Clock.{Clock, receive_timestamp}
use little_key_value_db.Hlc.Clock.Monotone.{receive_timestamp-past_incoming, IsOvertaken}
use little_key_value_db.Tests.Data.{time}

next_logical_timestamp-later_example :
    (cmp (time 3) (next_logical_timestamp (time 3)) ≡ lt) × IsWord (next_logical_timestamp (time 3))
next_logical_timestamp-later_example =
    next_logical_timestamp-later (time 3) (omega arith) (omega arith) (omega arith)

-- A manual clock at 10 that has seen a timestamp of wall time 12.
abbrev ahead : Clock Manual
ahead = record { wall_clock = record { manual_time = 10 }; latest_timestamp = time 12 }

abbrev incoming : Timestamp
incoming = record { wall_time = 12; logical_time = 5 }

receive_timestamp-past_incoming_example :
    (cmp incoming (receive_timestamp ahead incoming).latest_timestamp ≡ lt)
    ↔ ¬ IsOvertaken 10 incoming (time 12)
receive_timestamp-past_incoming_example =
    receive_timestamp-past_incoming ahead incoming (omega arith) (omega arith) (omega arith)

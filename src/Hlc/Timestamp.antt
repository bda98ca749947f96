-- ===== src/Hlc/Timestamp.antt =====
-- src/hlc/timestamp.rs. `wall_time` is a u64 and `logical_time` a u32; the arithmetic wraps, as in
-- a release build.
pub mod Order
pub mod Advance
use little_key_value_db.Prelude.{
  ℕ, ◌+◌, ◌-◌, ◌%◌, ◌^◌, ◌<◌, compare, Ordering, lt, eq, gt, Bool, ◌&&◌, ◌==◌, ltb, if◌then◌else◌,
}

pub record Timestamp : Type 0 where
  pub wall_time : ℕ
  pub logical_time : ℕ

abbrev pub new : ℕ → ℕ → Timestamp
new wall_time logical_time = record { wall_time = wall_time; logical_time = logical_time }

unfoldable pub is_intent_timestamp : Timestamp → Bool
is_intent_timestamp t = t.wall_time == 0 && t.logical_time == 0

abbrev pub get_intent_timestamp : Timestamp
get_intent_timestamp = record { wall_time = 0; logical_time = 0 }

-- `PartialEq::eq`
unfoldable pub beq : Timestamp → Timestamp → Bool
beq a b = a.logical_time == b.logical_time && a.wall_time == b.wall_time

-- `Ord::cmp`
unfoldable pub cmp : Timestamp → Timestamp → Ordering
unfolding is_intent_timestamp
cmp a b =
    if is_intent_timestamp a && is_intent_timestamp b
    then eq
    else if is_intent_timestamp a
    then gt
    else if is_intent_timestamp b
    then lt
    else if ltb b.wall_time a.wall_time
    then gt
    else if ltb a.wall_time b.wall_time
    then lt
    else compare a.logical_time b.logical_time

unfoldable pub advance_by : Timestamp → ℕ → Timestamp
advance_by t amount = record { wall_time = (t.wall_time + amount) % 2 ^ 64; logical_time = 0 }

unfoldable pub next_logical_timestamp : Timestamp → Timestamp
next_logical_timestamp t = record {
  wall_time = t.wall_time;
  logical_time = (t.logical_time + 1) % 2 ^ 32;
}

unfoldable pub advance_to : Timestamp → Timestamp → Timestamp
advance_to t timestamp = elim (cmp t timestamp) [ gt ↦ t | _ ↦ timestamp ]

unfoldable pub decrement_by : Timestamp → ℕ → Timestamp
decrement_by t amount = record {
  wall_time = (t.wall_time + 2 ^ 64 - amount) % 2 ^ 64;
  logical_time = 0;
}

-- The ranges of the two machine words.
abbrev pub IsWord : Timestamp → Type 0
IsWord t = (t.wall_time < 2 ^ 64) × (t.logical_time < 2 ^ 32)

-- A timestamp of a version, not of an intent.
abbrev pub IsVersion : Timestamp → Type 0
IsVersion t = 0 < t.wall_time + t.logical_time

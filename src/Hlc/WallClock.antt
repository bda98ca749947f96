-- ===== src/Hlc/WallClock.antt =====
-- src/hlc/wall_clock: the trait `WallClock` and the clock that is set by hand.
use little_key_value_db.Prelude.{ℕ}

pub record WallClock (S : Type 0) : Type 0 where
  pub current_time : S → ℕ

pub record Manual : Type 0 where
  pub manual_time : ℕ

-- `Manual::new`
abbrev pub manual_new : ℕ → Manual
manual_new time = record { manual_time = time }

instance abbrev pub manual_wall_clock : WallClock Manual
manual_wall_clock = record { current_time = λ m. m.manual_time }

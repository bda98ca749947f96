-- ===== src/Hlc/Timestamp/Advance.antt =====
-- What the methods that move a timestamp of src/hlc/timestamp.rs promise.
use little_key_value_db.Prelude.{ℕ, ◌+◌, ◌^◌, ◌<◌, lt, gt, ◌≡◌, ◌≢◌, ◌⊎◌, refl, arith}
use little_key_value_db.Hlc.Timestamp.{
  Timestamp, cmp, advance_to, advance_by, decrement_by, next_logical_timestamp, IsVersion, IsWord,
}
use little_key_value_db.Hlc.Timestamp.Order.{lt_of_gt, cmp_refl, eq_of_cmp}

-- `advance_to` returns the later of its two timestamps: one of them, and below neither.
pub advance_to-max :
    (t u : Timestamp)
    → ((advance_to t u ≡ t) ⊎ (advance_to t u ≡ u))
      × (cmp (advance_to t u) t ≢ lt)
      × (cmp (advance_to t u) u ≢ lt)
unfolding advance_to
advance_to-max t u =
    ground (arith, lt_of_gt t u, cmp_refl t, cmp_refl u, lt_of_gt u t, gt_of_lt u t)
  where
    gt_of_lt : (a b : Timestamp) → cmp a b ≡ lt → cmp b a ≡ gt
    gt_of_lt a b h = little_key_value_db.Hlc.Timestamp.Order.gt_of_lt a b h

-- The next logical timestamp is later and stays within its words, if the logical time is not at its
-- maximum and the timestamp is not the intent timestamp.
pub next_logical_timestamp-later :
    (t : Timestamp)
    → IsVersion t
    → t.wall_time < 2 ^ 64
    → t.logical_time + 1 < 2 ^ 32
    → (cmp t (next_logical_timestamp t) ≡ lt) × IsWord (next_logical_timestamp t)
unfolding cmp next_logical_timestamp
next_logical_timestamp-later t v w h = (ground arith, (w, omega arith))

-- `advance_by` moves forward and `decrement_by` undoes it on the wall time, as long as the wall
-- time stays within 64 bits; both reset the logical time.
pub decrement_by-advance_by :
    (t : Timestamp) (amount : ℕ)
    → 0 < amount
    → 0 < t.wall_time
    → t.wall_time + amount < 2 ^ 64
    → (cmp t (advance_by t amount) ≡ lt)
      × ((decrement_by (advance_by t amount) amount).wall_time ≡ t.wall_time)
      × ((decrement_by (advance_by t amount) amount).logical_time ≡ 0)
unfolding cmp advance_by decrement_by
decrement_by-advance_by t amount a p h = (ground arith, omega arith, refl)

-- ===== src/Hlc/Timestamp/Order.antt =====
-- The order of src/hlc/timestamp.rs: total, with the intent timestamp on top.
use little_key_value_db.Prelude.{lt, eq, gt, ◌≡◌, ◌↔◌, true, arith}
use little_key_value_db.Hlc.Timestamp.{Timestamp, cmp, beq, get_intent_timestamp, IsVersion}

pub eq_of_fields :
    (a b : Timestamp) → a.wall_time ≡ b.wall_time → a.logical_time ≡ b.logical_time → a ≡ b
eq_of_fields a b p q = λ i. record { wall_time = p i; logical_time = q i }

pub cmp_refl : (a : Timestamp) → cmp a a ≡ eq
unfolding cmp
cmp_refl a = ground arith

pub eq_of_cmp : (a b : Timestamp) → cmp a b ≡ eq → a ≡ b
unfolding cmp
eq_of_cmp a b h = eq_of_fields a b (ground arith) (ground arith)

pub gt_of_lt : (a b : Timestamp) → cmp a b ≡ lt → cmp b a ≡ gt
unfolding cmp
gt_of_lt a b h = ground arith

pub lt_of_gt : (a b : Timestamp) → cmp a b ≡ gt → cmp b a ≡ lt
unfolding cmp
lt_of_gt a b h = ground arith

-- "Less" of timestamps is transitive, with the intent timestamp above all others.
pub lt_trans : (a b c : Timestamp) → cmp a b ≡ lt → cmp b c ≡ lt → cmp a c ≡ lt
unfolding cmp
lt_trans a b c h k = ground arith

pub eq_of_beq : (a b : Timestamp) → beq a b ≡ true → a ≡ b
unfolding beq
eq_of_beq a b h = eq_of_fields a b (ground arith) (ground arith)

pub beq_refl : (a : Timestamp) → beq a a ≡ true
unfolding beq
beq_refl a = ground arith

pub cmp-intent : (t : Timestamp) → IsVersion t → cmp t get_intent_timestamp ≡ lt
unfolding cmp
cmp-intent t v = ground arith

-- The comparison says "equal" exactly for equal timestamps, as `==` does, it is antisymmetric, and
-- a timestamp is below the intent timestamp exactly when it is not the intent timestamp.
pub cmp_total_order :
    (a b : Timestamp)
    → (cmp a b ≡ eq ↔ beq a b ≡ true)
      × (cmp a b ≡ eq ↔ a ≡ b)
      × (cmp a b ≡ lt ↔ cmp b a ≡ gt)
      × (IsVersion a ↔ cmp a get_intent_timestamp ≡ lt)
unfolding cmp beq
cmp_total_order a b = (
  (ground arith, ground arith),
  (eq_of_cmp a b, ground arith),
  (gt_of_lt a b, lt_of_gt b a),
  (cmp-intent a, ground arith),
)

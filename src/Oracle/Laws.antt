-- ===== src/Oracle/Laws.antt =====
-- What the overlap test and the maximum of src/timestamp_oracle/oracle.rs promise.
use little_key_value_db.Prelude.{
  ordering_cases, ◌≡◌, ◌≢◌, ◌↔◌, ◌⊎◌, inl, inr, refl, Ordering, lt, eq, gt, true, List, [], ◌∷◌,
  Option, none, some, arith, All,
}
use little_key_value_db.Hlc.Timestamp.{Timestamp, cmp}
use little_key_value_db.Hlc.Timestamp.Order.{eq_of_cmp, cmp_refl, gt_of_lt}
use little_key_value_db.Storage.Bytes.{Key, bytes_cmp}
use little_key_value_db.Storage.Bytes.Order.{
  bytes_cmp_refl, eq_of_bytes_cmp, bytes_lt_trans, bytes_gt_of_lt, bytes_lt_of_gt,
}
use little_key_value_db.Storage.Txn.{Uuid}
use little_key_value_db.Oracle.{does_range_overlap, OracleValue, raise_max, max_timestamp}

-- `k` is not before `start` and not after `end`.
abbrev pub IsWithin : Key → Key → Key → Type 0
IsWithin start end k = (bytes_cmp k start ≢ lt) × (bytes_cmp k end ≢ gt)

-- The later of the two starts is within both ranges, if the test holds.
shared :
    (a b c d : Key) (o : Ordering)
    → bytes_cmp a c ≡ o
    → bytes_cmp a b ≢ gt
    → bytes_cmp c d ≢ gt
    → does_range_overlap a b c d ≡ true
    → (k : Key) × IsWithin a b k × IsWithin c d k
unfolding does_range_overlap
shared a b c d lt e v w h = (
  c,
  (ground (arith, bytes_gt_of_lt a c), ground (arith, bytes_lt_of_gt c b)),
  (ground (arith, bytes_cmp_refl c), w),
)
shared a b c d eq e v w h =
    (a, (ground (arith, bytes_cmp_refl a), v), (ground arith, ground (arith, eq_of_bytes_cmp a c)))
shared a b c d gt e v w h =
    (a, (ground (arith, bytes_cmp_refl a), v), (ground arith, ground (arith, bytes_lt_of_gt a d)))

no_gap :
    (k start end : Key) → bytes_cmp end start ≡ lt → bytes_cmp k start ≢ lt → bytes_cmp k end ≡ gt
no_gap k start end h n = ground (
  arith,
  bytes_lt_of_gt k start,
  eq_of_bytes_cmp k start,
  bytes_lt_trans end start k,
  bytes_gt_of_lt end k,
  bytes_gt_of_lt end start,
)

-- Two ranges whose ends are not before their starts overlap, by the test, exactly if some key is
-- within both.
pub does_range_overlap_lem :
    (first_start first_end second_start second_end : Key)
    → bytes_cmp first_start first_end ≢ gt
    → bytes_cmp second_start second_end ≢ gt
    → (does_range_overlap first_start first_end second_start second_end ≡ true)
      ↔ ((k : Key) × IsWithin first_start first_end k × IsWithin second_start second_end k)
unfolding does_range_overlap
does_range_overlap_lem a b c d v w = (
  shared a b c d (bytes_cmp a c) refl v w,
  λ (k, (ka, kb), (kc, kd)). ground (arith, no_gap k a d, no_gap k c b),
)

-- The timestamp is that of one of the values.
abbrev pub IsAttained : Timestamp → List OracleValue → Type 0
IsAttained t [] = ⊥
IsAttained t (v ∷ vs) = (t ≡ v.timestamp) ⊎ IsAttained t vs

abbrev pub IsBound : Timestamp → List OracleValue → Type 0
IsBound t vs = All (λ v. cmp t v.timestamp ≢ lt) vs

pub not_lt_trans : (a b c : Timestamp) → cmp a b ≢ lt → cmp b c ≢ lt → cmp a c ≢ lt
unfolding cmp
not_lt_trans a b c h k = ground arith

max_timestamp-from :
    (t : Timestamp) (id : Option Uuid) (vs : List OracleValue)
    → (u : Timestamp) × (i : Option Uuid) × (max_timestamp (some (t, id)) vs ≡ some (u, i))
      × (cmp u t ≢ lt)
      × IsBound u vs
      × ((u ≡ t) ⊎ IsAttained u vs)
unfolding max_timestamp
max_timestamp-from t id [] = (t, id, refl, ground (arith, cmp_refl t), tt, inl refl)
max_timestamp-from t id (v ∷ vs) = elim (ordering_cases (cmp t v.timestamp)) [
  | inl e ↦
      let (u, i, run, above, bound, from) = max_timestamp-from v.timestamp v.txn_id vs in
      (
        u,
        i,
        rw (e, raise_max) run,
        not_lt_trans u v.timestamp t above (ground (arith, gt_of_lt t v.timestamp)),
        (above, bound),
        inr from,
      )
  | inr (inl e) ↦
      let (u, i, run, above, bound, from) = max_timestamp-from v.timestamp none vs in
      (
        u,
        i,
        rw (e, raise_max) run,
        not_lt_trans u v.timestamp t above (ground (arith, eq_of_cmp t v.timestamp, cmp_refl t)),
        (above, bound),
        inr from,
      )
  | inr (inr e) ↦
      let (u, i, run, above, bound, from) = max_timestamp-from t id vs in
      (
        u,
        i,
        rw (e, raise_max) run,
        above,
        (not_lt_trans u t v.timestamp above (ground arith), bound),
        elim from [ inl same ↦ inl same | inr later ↦ inr (inr later) ],
      )
]

-- Of at least one overlapping range, the oracle returns a timestamp that is one of theirs and that is
-- before none of them.
pub max_timestamp_lem :
    (v : OracleValue) (vs : List OracleValue)
    → (u : Timestamp) × (id : Option Uuid) × (max_timestamp none (v ∷ vs) ≡ some (u, id))
      × IsBound u (v ∷ vs)
      × IsAttained u (v ∷ vs)
unfolding max_timestamp raise_max
max_timestamp_lem v vs =
    let (u, i, run, above, bound, from) = max_timestamp-from v.timestamp v.txn_id vs in
    (u, i, run, (above, bound), from)

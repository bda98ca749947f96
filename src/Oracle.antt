-- ===== src/Oracle.antt =====
-- The overlap of ranges of src/interval/interval_tree.rs, and the maximum over the overlapping ranges
-- of src/timestamp_oracle/oracle.rs. The overlapping ranges
-- are a list here: Oracle/Interval finds them.
pub mod Laws
pub mod Interval
pub mod Cache
use little_key_value_db.Prelude.{
  Ordering, lt, eq, gt, Bool, true, false, List, [], ◌∷◌, Option, none, some,
}
use little_key_value_db.Hlc.Timestamp
use little_key_value_db.Hlc.Timestamp.{Timestamp}
use little_key_value_db.Storage.Bytes.{Key, bytes_cmp}
use little_key_value_db.Storage.Txn.{Uuid}

unfoldable pub does_range_overlap : Key → Key → Key → Key → Bool
does_range_overlap first_start first_end second_start second_end =
    elim (bytes_cmp first_start second_start) [
      | gt ↦ elim (bytes_cmp second_end first_start) [ lt ↦ false | _ ↦ true ]
      | lt ↦ elim (bytes_cmp first_end second_start) [ lt ↦ false | _ ↦ true ]
      | eq ↦ true
    ]

pub record OracleValue : Type 0 where
  pub timestamp : Timestamp
  pub txn_id : Option Uuid

-- One round of the loop of `get_max_timestamp`.
unfoldable pub raise_max :
    Option (Timestamp × Option Uuid) → OracleValue → Option (Timestamp × Option Uuid)
raise_max none v = some (v.timestamp, v.txn_id)
raise_max (some (curr_timestamp, txn_id)) v = elim (Timestamp.cmp curr_timestamp v.timestamp) [
  | lt ↦ some (v.timestamp, v.txn_id)
  | eq ↦ some (v.timestamp, none)
  | gt ↦ some (curr_timestamp, txn_id)
]

-- The loop of `get_max_timestamp`, from the maximum so far.
unfoldable pub max_timestamp :
    Option (Timestamp × Option Uuid) → List OracleValue → Option (Timestamp × Option Uuid)
unfolding raise_max
max_timestamp max [] = max
max_timestamp max (v ∷ overlaps) = max_timestamp (raise_max max v) overlaps

-- ===== src/Oracle/Cache.antt =====
-- `TimestampOracle` of src/timestamp_oracle/oracle.rs: the read timestamps of ranges in an interval
-- tree.
pub mod Reads
use little_key_value_db.Prelude.{List, [], ◌∷◌, map, Option, none, some, Outcome, done, ◌>>=◌}
use little_key_value_db.Hlc.Timestamp.{Timestamp}
use little_key_value_db.Storage.Bytes.{Key}
use little_key_value_db.Storage.Txn.{Uuid, Txn}
use little_key_value_db.LockTable.Guard.{Range, SpanSet}
use little_key_value_db.Execute.Span.{RequestUnion, collect_spans}
use little_key_value_db.RbTree.{RbTree}
use little_key_value_db.RbTree
use little_key_value_db.Oracle.{OracleValue, max_timestamp}
use little_key_value_db.Oracle.Interval.{RangeValue, insert, get_overlap}

abbrev pub TimestampOracle : Type 0
TimestampOracle = RbTree OracleValue

-- `TimestampOracle::new`
abbrev pub new : TimestampOracle
new = RbTree.new

unfoldable pub add : Timestamp → Key → Key → Option Uuid → TimestampOracle → Outcome TimestampOracle
add timestamp start end txn_id oracle =
    insert start end (record { timestamp = timestamp; txn_id = txn_id }) oracle

-- The loop of `update_cache` over the spans of a request.
unfoldable pub add_spans :
    Timestamp → Option Uuid → SpanSet → TimestampOracle → Outcome TimestampOracle
unfolding add
add_spans timestamp txn_id [] oracle = done oracle
add_spans timestamp txn_id (span ∷ spans) oracle = do
  added ← add timestamp span.start_key span.end_key txn_id oracle
  add_spans timestamp txn_id spans added

unfoldable pub update_cache : RequestUnion → Txn → TimestampOracle → Outcome TimestampOracle
unfolding add_spans
update_cache request txn oracle =
    add_spans txn.read_timestamp (some txn.txn_id) (collect_spans request txn) oracle

abbrev pub value_of : RangeValue OracleValue → OracleValue
value_of r = r.value

unfoldable pub get_max_timestamp :
    Key → Key → TimestampOracle → Outcome (Option (Timestamp × Option Uuid))
get_max_timestamp start end oracle = do
  overlaps ← get_overlap start end oracle
  done (max_timestamp none (map value_of overlaps))

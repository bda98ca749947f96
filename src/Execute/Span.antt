-- ===== src/Execute/Span.antt =====
-- The spans of the requests of src/execute/request.rs: which keys a request latches and locks.
pub mod Laws
use little_key_value_db.Prelude.{Bool, true, false, List, [], ◌∷◌, ◌++◌, map, if◌then◌else◌}
use little_key_value_db.Storage.Bytes.{Key, Value}
use little_key_value_db.Storage.Txn.{Uuid, Txn, contains}
use little_key_value_db.LockTable.Guard.{Range, SpanSet}

pub data RequestUnion : Type 0 where
  begin_txn : Uuid → RequestUnion
  abort_txn : RequestUnion
  commit_txn : RequestUnion
  get : Key → RequestUnion
  put : Key → Value → RequestUnion

unfoldable pub is_read_only : RequestUnion → Bool
is_read_only (begin_txn txn_id) = true
is_read_only abort_txn = true
is_read_only commit_txn = true
is_read_only (get key) = true
is_read_only (put key value) = false

-- The span of a single key.
abbrev pub point : Key → Range
point key = record { start_key = key; end_key = key }

-- `retain(|e| uniques.insert(e.start_key))`, with the keys that `uniques` holds
unfoldable pub retain_unique : List Key → SpanSet → SpanSet
unfolding contains
retain_unique uniques [] = []
retain_unique uniques (span ∷ spans) =
    let kept = retain_unique uniques spans in
    let kept_after = retain_unique (span.start_key ∷ uniques) spans in
    if contains uniques span.start_key then kept else span ∷ kept_after

unfoldable pub dedupe_spanset : SpanSet → SpanSet
unfolding retain_unique
dedupe_spanset v = retain_unique [] v

-- The spans of a transaction that ends: the keys that it wrote and the keys that it read.
unfoldable pub txn_spans : Txn → SpanSet
unfolding dedupe_spanset
txn_spans txn = dedupe_spanset (map point txn.lock_spans ++ map point txn.read_set)

unfoldable pub collect_spans : RequestUnion → Txn → SpanSet
unfolding txn_spans
collect_spans (begin_txn txn_id) txn = []
collect_spans abort_txn txn = txn_spans txn
collect_spans commit_txn txn = txn_spans txn
collect_spans (get key) txn = point key ∷ []
collect_spans (put key value) txn = point key ∷ []

-- ===== src/Storage/Scanner.antt =====
-- src/storage/mvcc_scanner.rs: the scan of a range of keys at a timestamp.
pub mod Get
pub mod Found
pub mod Latest
pub mod Absent
pub mod Finish
use little_key_value_db.Prelude.{
  ℕ, zero, suc, ◌+◌, Ordering, lt, eq, gt, Bool, true, false, not, List, [], ◌∷◌, ◌++◌, Option,
  none, some, Outcome, done, panicked, unfinished, ◌>>=◌, unwrap, if◌then◌else◌, ◌==◌, length,
}
use little_key_value_db.Hlc.Timestamp
use little_key_value_db.Hlc.Timestamp.{Timestamp}
use little_key_value_db.Storage.Bytes.{Key, Value, bytes_eq, bytes_cmp}
use little_key_value_db.Storage.Key.{MvccKey, is_intent_key, create_intent_key}
use little_key_value_db.Storage.Txn.{Txn, TxnIntent, UncommittedValue}
use little_key_value_db.Storage.Store.{Serde}
use little_key_value_db.Storage.Iterator.{
  KvBytes, MvccIterator, next, current_key, current_value, current_value_serialized, valid, seek_ge,
  convert_raw_key_to_mvcc_key,
}

pub record MvccScanner : Type 0 where
  pub it : MvccIterator
  pub txn : Option Txn
  pub start_key : Key
  pub end_key : Option Key
  pub timestamp : Timestamp
  pub found_intents : List (TxnIntent × Value)
  pub max_records_count : ℕ
  pub results : List (MvccKey × Value)

abbrev pub new : MvccIterator → Key → Option Key → Timestamp → ℕ → Option Txn → MvccScanner
new it start_key end_key timestamp max_records_count transaction = record {
  it = it;
  txn = transaction;
  start_key = start_key;
  end_key = end_key;
  timestamp = timestamp;
  found_intents = [];
  max_records_count = max_records_count;
  results = [];
}

-- `self.results.push((self.it.current_key(), self.it.current_value()))`
unfoldable pub push_current : MvccScanner → Outcome MvccScanner
unfolding current_value
push_current s = do
  key ← current_key s.it
  value ← current_value s.it
  done (record s { results = s.results ++ ((key, value) ∷ []) })

unfoldable pub seek_older_version : MvccScanner → Key → Timestamp → Outcome (MvccScanner × Bool)
unfolding push_current
seek_older_version s key timestamp = do
  sought ← seek_ge s.it (record { key = key; timestamp = timestamp })
  let s' : MvccScanner = record s { it = sought.0 }
  if sought.1
      then (do
        current ← current_key s'.it
        if bytes_eq current.key key
            then (do pushed ← push_current s'; done (pushed, true))
            else done (s', false))
      else done (s', false)

-- The intent branch of `get_current_key`. Its three cases, on the scanner's transaction, do the same.
unfoldable pub push_intent : MvccScanner → MvccKey → UncommittedValue → MvccScanner
push_intent s current_key current_value = record s {
  found_intents =
      s.found_intents
      ++ ((
        record { txn_meta = current_value.txn_metadata; key = current_key.key },
        current_value.value,
      )
          ∷ []);
}

unfoldable pub get_current_key : Serde UncommittedValue → MvccScanner → Outcome (MvccScanner × Bool)
unfolding push_intent
get_current_key serde s = do
  current ← current_key s.it
  if is_intent_key current
      then (do
        value ← current_value_serialized serde s.it
        done (push_intent s current value, false))
      else elim (Timestamp.cmp s.timestamp current.timestamp) [
        | gt ↦ do pushed ← push_current s; done (pushed, true)
        | lt ↦ seek_older_version s current.key s.timestamp
        | eq ↦ do pushed ← push_current s; done (pushed, true)
      ]

-- The loop of `advance_to_next_key` over the pairs to come.
unfoldable pub advance_loop : Key → List KvBytes → Outcome MvccIterator
unfolding convert_raw_key_to_mvcc_key
advance_loop current [] = done (record { it = []; curr_kv = none; is_done = true })
advance_loop current (kv ∷ rest) = do
  next_key ← convert_raw_key_to_mvcc_key kv.0
  elim (bytes_eq current next_key.key) [
    | true ↦ advance_loop current rest
    | false ↦ done (record { it = rest; curr_kv = some kv; is_done = false })
  ]

unfoldable pub advance_to_next_key : MvccScanner → Outcome MvccScanner
unfolding valid
advance_to_next_key s =
    if valid s.it
    then (do
      current ← current_key s.it
      moved ← advance_loop current.key s.it.it
      done (record s { it = moved }))
    else done s

-- The end of the range: `end_key`, or the start key where there is none.
unfoldable pub is_past_end : MvccScanner → MvccKey → Bool
is_past_end s current = elim s.end_key [
  | some end_key ↦ elim (bytes_cmp current.key end_key) [ gt ↦ true | _ ↦ false ]
  | none ↦ elim (bytes_cmp current.key s.start_key) [ gt ↦ true | _ ↦ false ]
]

-- The loop of `scan`, on fuel.
unfoldable pub scan_loop : Serde UncommittedValue → ℕ → MvccScanner → Outcome MvccScanner
scan_loop serde zero s = unfinished
scan_loop serde (suc fuel) s =
    let rest = (do
      got ← get_current_key serde s
      advanced ← advance_to_next_key got.0
      scan_loop serde fuel advanced) in
    if length s.results == s.max_records_count
    then done s
    else if not (valid s.it)
    then done s
    else (do current ← current_key s.it; if is_past_end s current then done s else rest)

-- Each round takes a pair from the iterator or ends it, so this fuel is enough.
unfoldable pub scan : Serde UncommittedValue → MvccScanner → Outcome MvccScanner
scan serde s = do
  sought ← seek_ge s.it (create_intent_key s.start_key)
  scan_loop serde (suc (suc (length s.it.it))) (record s { it = sought.0 })

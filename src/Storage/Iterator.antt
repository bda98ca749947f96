-- ===== src/Storage/Iterator.antt =====
-- src/storage/mvcc_iterator.rs: the wrapper around the RocksDB iterator, whose pending pairs are a
-- list (`peek` sees its head, `next` takes it off).
pub mod Seek
use little_key_value_db.Prelude.{
  ℕ, Ordering, lt, eq, gt, Bool, true, false, not, ◌&&◌, List, [], ◌∷◌, Option, none, some, Outcome,
  done, panicked, ◌>>=◌, unwrap, if◌then◌else◌,
}
use little_key_value_db.Hlc.Timestamp
use little_key_value_db.Hlc.Timestamp.{Timestamp}
use little_key_value_db.Storage.Bytes.{Bytes, Value, bytes_eq}
use little_key_value_db.Storage.Key.{MvccKey, decode_mvcc_key}
use little_key_value_db.Storage.Store.{Serde}

abbrev pub KvBytes : Type 0
KvBytes = Bytes × Bytes

pub record MvccIterator : Type 0 where
  pub it : List KvBytes
  pub curr_kv : Option KvBytes
  pub is_done : Bool

-- `next`, with the Boolean that it returns
unfoldable pub next : MvccIterator → MvccIterator × Bool
next i = elim i.it [
  | [] ↦ (record i { curr_kv = none; is_done = true }, false)
  | kv ∷ rest ↦ (record i { it = rest; curr_kv = some kv }, true)
]

-- `MVCCIterator::new` on the pairs of the column family
unfoldable pub new : List KvBytes → MvccIterator
unfolding next
new pairs = (next (record { it = pairs; curr_kv = none; is_done = false })).0

unfoldable pub convert_raw_key_to_mvcc_key : Bytes → Outcome MvccKey
convert_raw_key_to_mvcc_key raw_key = unwrap (decode_mvcc_key raw_key)

unfoldable pub current_key : MvccIterator → Outcome MvccKey
unfolding convert_raw_key_to_mvcc_key
current_key i = do kv ← unwrap i.curr_kv; convert_raw_key_to_mvcc_key kv.0

unfoldable pub current_raw_key : MvccIterator → Outcome Bytes
current_raw_key i = do kv ← unwrap i.curr_kv; done kv.0

unfoldable pub current_value : MvccIterator → Outcome Value
current_value i = do kv ← unwrap i.curr_kv; done kv.1

unfoldable pub current_value_serialized : {A : Type 0} → Serde A → MvccIterator → Outcome A
current_value_serialized s i = do kv ← unwrap i.curr_kv; unwrap (s.from_slice kv.1)

unfoldable pub valid : MvccIterator → Bool
valid i = not i.is_done

-- `<=` of timestamps
unfoldable pub at_most : Timestamp → Timestamp → Bool
at_most a b = elim (Timestamp.cmp a b) [ gt ↦ false | _ ↦ true ]

-- The test of `seek_ge`: the same key, at the same or an older version.
unfoldable pub is_sought : MvccKey → MvccKey → Bool
unfolding at_most
is_sought found key = bytes_eq found.key key.key && at_most found.timestamp key.timestamp

-- The loop of `seek_ge` over the pairs that are still to come: the current pair follows the peeked
-- one, and stays on the last pair when they are used up.
unfoldable pub seek_loop : List KvBytes → Option KvBytes → MvccKey → Outcome (MvccIterator × Bool)
unfolding convert_raw_key_to_mvcc_key
seek_loop [] curr key = done (record { it = []; curr_kv = curr; is_done = false }, false)
seek_loop (kv ∷ rest) curr key = do
  peeked_key ← convert_raw_key_to_mvcc_key kv.0
  elim (is_sought peeked_key key) [
    | true ↦ done (record { it = rest; curr_kv = some kv; is_done = false }, true)
    | false ↦ seek_loop rest (some kv) key
  ]

unfoldable pub seek_ge : MvccIterator → MvccKey → Outcome (MvccIterator × Bool)
unfolding current_key valid
seek_ge i key =
    if valid i
    then (do
      curr_key ← current_key i
      if is_sought curr_key key then done (i, true) else seek_loop i.it i.curr_kv key)
    else done (i, false)

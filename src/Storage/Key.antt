-- ===== src/Storage/Key.antt =====
-- src/storage/mvcc_key.rs: versioned keys and their encoding,
-- [key] [wall_time: 8 bytes] [logical_time: 4 bytes] "mvcc".
pub mod Codec
use little_key_value_db.Prelude.{
  ℕ, ◌-◌, Ordering, Bool, true, false, not, ◌&&◌, Option, none, some, [], ◌∷◌, ◌++◌, ltb, length,
  take, drop, if◌then◌else◌,
}
use little_key_value_db.Hlc.Timestamp
use little_key_value_db.Hlc.Timestamp.{Timestamp, get_intent_timestamp, is_intent_timestamp}
use little_key_value_db.Storage.Bytes.{
  Bytes, slice, to_le_bytes, from_le_bytes, bytes_eq, bytes_cmp, is_utf8,
}

pub record MvccKey : Type 0 where
  pub key : Bytes
  pub timestamp : Timestamp

abbrev pub new : Bytes → Timestamp → MvccKey
new key timestamp = record { key = key; timestamp = timestamp }

-- `PartialEq::eq`
unfoldable pub beq : MvccKey → MvccKey → Bool
beq a b = bytes_eq a.key b.key && Timestamp.beq a.timestamp b.timestamp

-- `Ord::cmp`
unfoldable pub cmp : MvccKey → MvccKey → Ordering
cmp a b = elim (bytes_eq a.key b.key) [
  | true ↦ Timestamp.cmp a.timestamp b.timestamp
  | false ↦ bytes_cmp a.key b.key
]

unfoldable pub is_intent_key : MvccKey → Bool
unfolding is_intent_timestamp
is_intent_key k = is_intent_timestamp k.timestamp

abbrev pub create_intent_key : Bytes → MvccKey
create_intent_key key = record { key = key; timestamp = get_intent_timestamp }

unfoldable pub encode_timestamp : Timestamp → Bytes
unfolding to_le_bytes
encode_timestamp t = to_le_bytes 8 t.wall_time ++ to_le_bytes 4 t.logical_time

-- The four bytes of "mvcc"
abbrev pub mvcc_tag : Bytes
mvcc_tag = b'm' ∷ b'v' ∷ b'c' ∷ b'c' ∷ []

unfoldable pub encode_mvcc_key : MvccKey → Bytes
unfolding encode_timestamp
encode_mvcc_key k = k.key ++ (encode_timestamp k.timestamp ++ mvcc_tag)

unfoldable pub decode_timestamp : Bytes → Timestamp
unfolding from_le_bytes
decode_timestamp encoded = record {
  wall_time = from_le_bytes (slice encoded 0 8);
  logical_time = from_le_bytes (slice encoded 8 12);
}

unfoldable pub decode_mvcc_key : Bytes → Option MvccKey
unfolding decode_timestamp bytes_eq
decode_mvcc_key encoded =
    if ltb (length encoded) 16
    then none
    else let hardcoded_start = length encoded - 4 in
      if not (bytes_eq (drop hardcoded_start encoded) mvcc_tag)
      then none
      else let key_end = length encoded - 12 - 4 in
        some (record {
          key = take key_end encoded;
          timestamp = decode_timestamp (slice encoded key_end hardcoded_start);
        })

-- `String::from_utf8(encoded).unwrap()`: `none` is the panic.
unfoldable pub to_string : MvccKey → Option Bytes
to_string k = let encoded = encode_mvcc_key k in if is_utf8 encoded then some encoded else none

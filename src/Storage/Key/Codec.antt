-- ===== src/Storage/Key/Codec.antt =====
-- The encoding of src/storage/mvcc_key.rs is a bijection onto the byte strings that it decodes, and
-- when it is a Rust `String`.
use little_key_value_db.Prelude.{
  some-injective, none-ne-some, ap₂, length-drop, length-take, All-take, All-drop, drop-drop,
  take-append-drop, append-nil, subst, ℕ, ◌+◌, ◌-◌, ◌%◌, ◌/◌, ◌≤◌, ◌<◌, ◌≡◌, sym, ap, ◌∙◌, [], ◌++◌,
  false, none, some, arith, length, take, drop, length-append, take-append, drop-append,
  append_assoc, ltb, All-append, Bool-cases, inl, inr,
}
use little_key_value_db.Hlc.Timestamp.{Timestamp, IsWord}
use little_key_value_db.Hlc.Timestamp.Order.{eq_of_fields}
use little_key_value_db.Storage.Bytes.{
  Bytes, is_utf8, IsByte, AreBytes, slice, to_le_bytes, from_le_bytes, bytes_eq,
}
use little_key_value_db.Storage.Bytes.Words.{
  length-to_le_bytes, from_le_bytes-to_le_bytes, to_le_bytes-from_le_bytes,
}
use little_key_value_db.Storage.Bytes.Order.{eq_of_bytes_eq}
use little_key_value_db.Storage.Bytes.Utf8.{IsAscii, is_utf8-append, is_utf8_ascii, is_utf8_cut}
use little_key_value_db.Storage.Key.{
  MvccKey, encode_timestamp, encode_mvcc_key, decode_timestamp, decode_mvcc_key, mvcc_tag,
  to_string,
}

pub length-encode_timestamp : (t : Timestamp) → length (encode_timestamp t) ≡ 12
unfolding encode_timestamp
length-encode_timestamp t = omega (
  arith,
  length-append (to_le_bytes 8 t.wall_time) (to_le_bytes 4 t.logical_time),
  length-to_le_bytes 8 t.wall_time,
  length-to_le_bytes 4 t.logical_time,
)

take_at : (n : ℕ) (xs ys : Bytes) → n ≡ length xs → take n (xs ++ ys) ≡ xs
take_at n xs ys e = rw e (take-append xs ys)

drop_at : (n : ℕ) (xs ys : Bytes) → n ≡ length xs → drop n (xs ++ ys) ≡ ys
drop_at n xs ys e = rw e (drop-append xs ys)

decode_timestamp-encode : (t : Timestamp) → IsWord t → decode_timestamp (encode_timestamp t) ≡ t
unfolding decode_timestamp encode_timestamp
decode_timestamp-encode t w =
    eq_of_fields _ _ (from_le_bytes-to_le_bytes 8 t.wall_time w.0)
      (from_le_bytes-to_le_bytes 4 t.logical_time w.1)

length-encode_mvcc_key : (k : MvccKey) → length (encode_mvcc_key k) ≡ length k.key + 16
unfolding encode_mvcc_key
length-encode_mvcc_key k = omega (
  arith,
  length-append k.key (encode_timestamp k.timestamp ++ mvcc_tag),
  length-append (encode_timestamp k.timestamp) mvcc_tag,
  length-encode_timestamp k.timestamp,
)

module _ (k : MvccKey) where
  tag_part : drop (length (encode_mvcc_key k) - 4) (encode_mvcc_key k) ≡ mvcc_tag
  unfolding encode_mvcc_key
  tag_part = rw (← append_assoc k.key (encode_timestamp k.timestamp) mvcc_tag) (
      drop_at _ (k.key ++ encode_timestamp k.timestamp) mvcc_tag
        (omega (arith, length-append (k.key ++ encode_timestamp k.timestamp) mvcc_tag)))

  key_part : take (length (encode_mvcc_key k) - 12 - 4) (encode_mvcc_key k) ≡ k.key
  unfolding encode_mvcc_key
  key_part = take_at _ k.key _ (omega (arith, length-encode_mvcc_key k))

  timestamp_part :
      slice
        (encode_mvcc_key k)
        (length (encode_mvcc_key k) - 12 - 4)
        (length (encode_mvcc_key k) - 4)
      ≡ encode_timestamp k.timestamp
  unfolding encode_mvcc_key
  timestamp_part =
      rw
        (drop_at (length (encode_mvcc_key k) - 12 - 4) k.key
          (encode_timestamp k.timestamp ++ mvcc_tag) (omega (arith, length-encode_mvcc_key k)))
        (take_at _ (encode_timestamp k.timestamp) mvcc_tag
          (omega (arith, length-encode_mvcc_key k, length-encode_timestamp k.timestamp)))

  long_enough : ltb (length (encode_mvcc_key k)) 16 ≡ false
  long_enough = ground (arith, length-encode_mvcc_key k)

-- Every versioned key whose times fit their machine words is decoded from its encoding.
pub decode_mvcc_key-encode :
    (k : MvccKey) → IsWord k.timestamp → decode_mvcc_key (encode_mvcc_key k) ≡ some k
unfolding decode_mvcc_key
decode_mvcc_key-encode k w =
    rw (
      long_enough k,
      tag_part k,
      key_part k,
      timestamp_part k,
      decode_timestamp-encode k.timestamp w,
    )

word_part :
    (n : ℕ) (bs : Bytes) → length bs ≡ n → AreBytes bs → to_le_bytes n (from_le_bytes bs) ≡ bs
word_part n bs e a = rw (← e) (to_le_bytes-from_le_bytes bs a)

take_all : (n : ℕ) (bs : Bytes) → n ≡ length bs → take n bs ≡ bs
take_all n bs e = ap (take n) (sym (append-nil bs)) ∙ take_at n bs [] e

encode_timestamp-decode :
    (bs : Bytes) → length bs ≡ 12 → AreBytes bs → encode_timestamp (decode_timestamp bs) ≡ bs
unfolding encode_timestamp decode_timestamp
encode_timestamp-decode bs e a =
    let rest : length (drop 8 bs) ≡ 4 = omega (arith, length-drop 8 bs) in
    ap₂ ◌++◌ (word_part 8 (slice bs 0 8) (length-take 8 bs (omega arith)) (All-take IsByte 8 bs a))
      (word_part 4 (slice bs 8 12) (length-take 4 (drop 8 bs) (omega arith))
        (All-take IsByte 4 (drop 8 bs) (All-drop IsByte 8 bs a)))
    ∙ ap (◌++◌ (take 8 bs)) (take_all 4 (drop 8 bs) (sym rest))
    ∙ take-append-drop 8 bs

-- The three parts of a long enough byte string that ends in the tag, put together again.
reassemble :
    (e : Bytes)
    → 16 ≤ length e
    → AreBytes e
    → drop (length e - 4) e ≡ mvcc_tag
    → take (length e - 12 - 4) e
        ++ (encode_timestamp (decode_timestamp (slice e (length e - 12 - 4) (length e - 4)))
            ++ mvcc_tag)
      ≡ e
reassemble e h a t =
    let start : ℕ = length e - 12 - 4 in
    let rest = drop start e in
    let width : length e - 4 - start ≡ 12 = omega arith in
    let times : length (take 12 rest) ≡ 12 =
      length-take 12 rest (omega (arith, length-drop start e)) in
    let tag : drop 12 rest ≡ mvcc_tag =
      drop-drop 12 start e ∙ ap (λ (n : ℕ). drop n e) (omega arith) ∙ t in
    rw
      (
        width,
        encode_timestamp-decode (take 12 rest) times
            (All-take IsByte 12 rest (All-drop IsByte start e a)),
        ← tag,
        take-append-drop 12 rest,
      )
      (take-append-drop start e)

-- Bytes that decode to a versioned key are the encoding of that key.
pub encode_mvcc_key-decode :
    (e : Bytes) (k : MvccKey) → AreBytes e → decode_mvcc_key e ≡ some k → encode_mvcc_key k ≡ e
unfolding decode_mvcc_key encode_mvcc_key
encode_mvcc_key-decode e k a h = elim (Bool-cases (ltb (length e) 16)) [
  | inl short ↦ absurd (none-ne-some _ (rw (short, decode_mvcc_key) at h))
  | inr long ↦ elim (Bool-cases (bytes_eq (drop (length e - 4) e) mvcc_tag)) [
    | inr other ↦ absurd (none-ne-some _ (rw (long, other) at h))
    | inl tagged ↦
        let same = some-injective _ _ (rw (long, tagged) at h) in
        subst (λ d. encode_mvcc_key d ≡ e) same
          (reassemble e (ground arith) a (eq_of_bytes_eq _ _ tagged))
  ]
]

encode_mvcc_key-IsAscii :
    (k : MvccKey)
    → IsAscii k.key
    → IsAscii (encode_timestamp k.timestamp)
    → IsAscii (encode_mvcc_key k)
unfolding encode_mvcc_key
encode_mvcc_key-IsAscii k a t =
    All-append (λ b. b < 128) k.key _ a
      (All-append (λ b. b < 128) (encode_timestamp k.timestamp) mvcc_tag t (omega arith))

-- The `String` that the store is called with is the encoding of the versioned key, if the key and the
-- twelve bytes of its timestamp are all below 128.
pub to_string-encode :
    (k : MvccKey)
    → IsAscii k.key
    → IsAscii (encode_timestamp k.timestamp)
    → to_string k ≡ some (encode_mvcc_key k)
unfolding to_string
to_string-encode k a t = rw (is_utf8_ascii (encode_mvcc_key k) (encode_mvcc_key-IsAscii k a t))

-- A version of an ASCII key has no `String` if the lowest byte of its wall time but not the next one has
-- the high bit.
pub to_string_panics :
    (k : MvccKey)
    → IsAscii k.key
    → 128 ≤ k.timestamp.wall_time % 256
    → k.timestamp.wall_time / 256 % 256 < 128
    → to_string k ≡ none
unfolding to_string encode_mvcc_key
to_string_panics k a h l = rw (is_utf8-append k.key _ a, is_utf8_cut _ _ _ h l)

-- The name of a key is its encoding.
pub encode_mvcc_key-to_string :
    (k : MvccKey) (name : Bytes) → to_string k ≡ some name → encode_mvcc_key k ≡ name
unfolding to_string
encode_mvcc_key-to_string k name h = elim (Bool-cases (is_utf8 (encode_mvcc_key k))) [
  | inl valid ↦ some-injective _ _ (rw (valid, to_string) at h)
  | inr other ↦ absurd (none-ne-some _ (rw (other, to_string) at h))
]

-- Two keys with the same name are the same key.
pub eq_of_to_string :
    (k l : MvccKey) (name : Bytes)
    → IsWord k.timestamp
    → IsWord l.timestamp
    → to_string k ≡ some name
    → to_string l ≡ some name
    → k ≡ l
eq_of_to_string k l name v w p q = some-injective k l (
    sym (decode_mvcc_key-encode k v)
    ∙ ap decode_mvcc_key
        (encode_mvcc_key-to_string k name p ∙ sym (encode_mvcc_key-to_string l name q))
    ∙ decode_mvcc_key-encode l w)

-- ===== src/Storage/Store/Compare.antt =====
-- The comparator of src/storage/storage.rs on encoded versioned keys.
use little_key_value_db.Prelude.{Ordering, lt, eq, gt, ◌≡◌, ◌↔◌, sym, ◌∙◌, true, false, arith}
use little_key_value_db.Hlc.Timestamp
use little_key_value_db.Hlc.Timestamp.{Timestamp, IsWord, is_intent_timestamp}
use little_key_value_db.Hlc.Timestamp.Order.{eq_of_cmp, cmp_refl, lt_trans, gt_of_lt, lt_of_gt}
use little_key_value_db.Storage.Bytes.{bytes_cmp}
use little_key_value_db.Storage.Bytes.Order.{
  eq_of_bytes_cmp, bytes_cmp_refl, bytes_lt_trans, bytes_gt_of_lt, bytes_lt_of_gt,
}
use little_key_value_db.Storage.Key.{MvccKey, encode_mvcc_key}
use little_key_value_db.Storage.Key.Codec.{decode_mvcc_key-encode}
use little_key_value_db.Storage.Store.{compare, compare_decoded}

-- Keys ascending; the versions of a key from the latest to the earliest.
abbrev pub version_order : MvccKey → MvccKey → Ordering
version_order a b = elim (bytes_cmp a.key b.key) [
  | lt ↦ lt
  | eq ↦ Timestamp.cmp b.timestamp a.timestamp
  | gt ↦ gt
]

intents_first :
    (s t : Timestamp)
    → (elim (is_intent_timestamp s) as (λ _. Ordering) [
      | true ↦ elim (is_intent_timestamp t) as (λ _. Ordering) [ true ↦ eq | false ↦ lt ]
      | false ↦ elim (is_intent_timestamp t) as (λ _. Ordering) [
        | true ↦ gt
        | false ↦ Timestamp.cmp t s
      ]
    ])
      ≡ Timestamp.cmp t s
unfolding Timestamp.cmp
intents_first s t = ground arith

compare_decoded-version_order : (a b : MvccKey) → compare_decoded a b ≡ version_order a b
unfolding compare_decoded
compare_decoded-version_order a b = ground (arith, intents_first a.timestamp b.timestamp)

-- On encodings of versioned keys whose times fit their words, the comparator orders by the key, and
-- within a key from the latest version to the earliest, the intent before all.
pub compare-encode :
    (a b : MvccKey)
    → IsWord a.timestamp
    → IsWord b.timestamp
    → compare (encode_mvcc_key a) (encode_mvcc_key b) ≡ version_order a b
unfolding compare
compare-encode a b v w =
    rw (decode_mvcc_key-encode a v, decode_mvcc_key-encode b w, compare)
      (compare_decoded-version_order a b)

pub eq_of_version_order : (a b : MvccKey) → version_order a b ≡ eq → a ≡ b
eq_of_version_order a b h =
    let keys : bytes_cmp a.key b.key ≡ eq = ground arith in
    let times : Timestamp.cmp b.timestamp a.timestamp ≡ eq = ground arith in
    λ i. record {
      key = eq_of_bytes_cmp a.key b.key keys i;
      timestamp = sym (eq_of_cmp b.timestamp a.timestamp times) i;
    }

pub version_order_trans :
    (a b c : MvccKey) → version_order a b ≡ lt → version_order b c ≡ lt → version_order a c ≡ lt
version_order_trans a b c h k = ground (
  arith,
  bytes_lt_trans a.key b.key c.key,
  eq_of_bytes_cmp a.key b.key,
  eq_of_bytes_cmp b.key c.key,
  bytes_cmp_refl a.key,
  lt_trans c.timestamp b.timestamp a.timestamp,
)

-- On encodings of versioned keys whose times fit their words, the comparator says "equal" exactly
-- for equal keys, and "less" exactly where it says "greater" of the swapped pair.
pub compare_total_order :
    (a b : MvccKey)
    → IsWord a.timestamp
    → IsWord b.timestamp
    → (compare (encode_mvcc_key a) (encode_mvcc_key b) ≡ eq ↔ a ≡ b)
      × (compare (encode_mvcc_key a) (encode_mvcc_key b) ≡ lt
          ↔ compare (encode_mvcc_key b) (encode_mvcc_key a) ≡ gt)
compare_total_order a b v w =
    rw (compare-encode a b v w, compare-encode b a w v)
      ((eq_of_version_order a b, λ e. rw e (same b)), (flip a b, unflip a b))
  where
    same : (c : MvccKey) → version_order c c ≡ eq
    same c = ground (arith, bytes_cmp_refl c.key, cmp_refl c.timestamp)

    flip : (c d : MvccKey) → version_order c d ≡ lt → version_order d c ≡ gt
    flip c d h = ground (
      arith,
      bytes_gt_of_lt c.key d.key,
      eq_of_bytes_cmp c.key d.key,
      bytes_cmp_refl c.key,
      gt_of_lt d.timestamp c.timestamp,
    )

    unflip : (c d : MvccKey) → version_order d c ≡ gt → version_order c d ≡ lt
    unflip c d h = ground (
      arith,
      bytes_lt_of_gt d.key c.key,
      eq_of_bytes_cmp d.key c.key,
      bytes_cmp_refl c.key,
      lt_of_gt c.timestamp d.timestamp,
    )

-- On encodings of versioned keys whose times fit their words, "less" of the comparator is
-- transitive.
pub compare_trans :
    (a b c : MvccKey)
    → IsWord a.timestamp
    → IsWord b.timestamp
    → IsWord c.timestamp
    → compare (encode_mvcc_key a) (encode_mvcc_key b) ≡ lt
    → compare (encode_mvcc_key b) (encode_mvcc_key c) ≡ lt
    → compare (encode_mvcc_key a) (encode_mvcc_key c) ≡ lt
compare_trans a b c u v w h k =
    compare-encode a c u w
    ∙ version_order_trans a b c (sym (compare-encode a b u v) ∙ h)
        (sym (compare-encode b c v w) ∙ k)

-- ===== src/Execute/Span/Laws.antt =====
-- Which keys the spans of src/execute/request.rs cover.
use little_key_value_db.Prelude.{◌≡◌, refl, ◌∙◌, not, ◌&&◌, ◌||◌, List, [], ◌∷◌, ◌++◌, map, arith}
use little_key_value_db.Storage.Bytes.{Key}
use little_key_value_db.Storage.Bytes.Order.{bytes_eq_refl, eq_of_bytes_eq}
use little_key_value_db.Storage.Txn.{Txn, contains}
use little_key_value_db.Storage.Txn.Laws.{IsDistinct}
use little_key_value_db.LockTable.Guard.{SpanSet}
use little_key_value_db.Execute.Span.{
  commit_txn, abort_txn, collect_spans, txn_spans, dedupe_spanset, retain_unique, point,
}

abbrev pub start_keys : SpanSet → List Key
start_keys [] = []
start_keys (span ∷ spans) = span.start_key ∷ start_keys spans

contains-retain_unique :
    (uniques : List Key) (spans : SpanSet) (j : Key)
    → contains (start_keys (retain_unique uniques spans)) j
      ≡ (not (contains uniques j) && contains (start_keys spans) j)
unfolding retain_unique contains
contains-retain_unique uniques [] j = ground arith
contains-retain_unique uniques (span ∷ spans) j = ground (
  arith,
  contains-retain_unique uniques spans j,
  contains-retain_unique (span.start_key ∷ uniques) spans j,
  eq_of_bytes_eq span.start_key j,
  bytes_eq_refl span.start_key,
)

retain_unique-IsDistinct :
    (uniques : List Key) (spans : SpanSet) → IsDistinct (start_keys (retain_unique uniques spans))
unfolding retain_unique contains
retain_unique-IsDistinct uniques [] = tt
retain_unique-IsDistinct uniques (span ∷ spans) = ground (
  arith,
  retain_unique-IsDistinct uniques spans,
  retain_unique-IsDistinct (span.start_key ∷ uniques) spans,
  contains-retain_unique (span.start_key ∷ uniques) spans span.start_key,
  bytes_eq_refl span.start_key,
)

contains-points :
    (xs ys : List Key) (j : Key)
    → contains (start_keys (map point xs ++ map point ys)) j ≡ (contains xs j || contains ys j)
unfolding contains
contains-points [] [] j = refl
contains-points [] (y ∷ ys) j = ground (arith, contains-points [] ys j)
contains-points (x ∷ xs) ys j = ground (arith, contains-points xs ys j)

-- A transaction that ends, by a commit or an abort, asks for no key twice, and asks exactly for the
-- keys that it wrote or read.
pub collect_spans_ending :
    (txn : Txn) (j : Key)
    → (collect_spans commit_txn txn ≡ collect_spans abort_txn txn)
      × IsDistinct (start_keys (collect_spans commit_txn txn))
      × (contains (start_keys (collect_spans commit_txn txn)) j
          ≡ (contains txn.lock_spans j || contains txn.read_set j))
unfolding collect_spans txn_spans dedupe_spanset contains
collect_spans_ending txn j =
    let spans = map point txn.lock_spans ++ map point txn.read_set in
    (
      refl,
      retain_unique-IsDistinct [] spans,
      contains-retain_unique [] spans j ∙ none_seen ∙ contains-points txn.lock_spans txn.read_set j,
    )
  where
    none_seen :
        (not (contains [] j)
          && contains (start_keys (map point txn.lock_spans ++ map point txn.read_set)) j)
        ≡ contains (start_keys (map point txn.lock_spans ++ map point txn.read_set)) j
    none_seen = ground arith

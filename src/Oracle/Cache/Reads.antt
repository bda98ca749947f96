-- ===== src/Oracle/Cache/Reads.antt =====
-- What src/timestamp_oracle/oracle.rs tells of the reads of a range.
use little_key_value_db.Prelude.{
  ◌≡◌, ◌≢◌, refl, ap, gt, List, [], ◌∷◌, map, Option, none, some, done, ◌>>=◌,
}
use little_key_value_db.Hlc.Timestamp.{Timestamp}
use little_key_value_db.Storage.Bytes.{Key, bytes_cmp}
use little_key_value_db.Storage.Txn.{Uuid}
use little_key_value_db.RbTree.Shape.{AreAscending, Shape, IsTree, inorder}
use little_key_value_db.Oracle.{OracleValue, max_timestamp}
use little_key_value_db.Oracle.Laws.{IsBound, IsAttained, max_timestamp_lem}
use little_key_value_db.Oracle.Interval.Overlap.{overlapping, get_overlap_lem}
use little_key_value_db.Oracle.Cache.{TimestampOracle, get_max_timestamp, value_of}

-- The values of the ranges of the tree that overlap.
abbrev pub reads_of : Key → Key → Shape OracleValue → List OracleValue
reads_of start end s = map value_of (overlapping start end (inorder s))

-- The answer is the latest of the timestamps, or nothing where there is none.
abbrev pub IsMax : List OracleValue → Option (Timestamp × Option Uuid) → Type 0
IsMax vs none = vs ≡ []
IsMax vs (some m) = IsBound m.0 vs × IsAttained m.0 vs

max_timestamp-IsMax : (vs : List OracleValue) → IsMax vs (max_timestamp none vs)
unfolding max_timestamp
max_timestamp-IsMax [] = refl
max_timestamp-IsMax (v ∷ vs) =
    let (u, id, run, bound, attained) = max_timestamp_lem v vs in rw run (bound, attained)

-- On a tree that is ordered by the starts of its ranges, the oracle answers for a range that does not
-- end before it starts with the latest timestamp of all ranges of the tree that overlap with it, or
-- with nothing where none overlaps.
pub get_max_timestamp_lem :
    (start end : Key) (oracle : TimestampOracle) (s : Shape OracleValue)
    → IsTree oracle s
    → AreAscending (inorder s)
    → bytes_cmp start end ≢ gt
    → (m : Option (Timestamp × Option Uuid)) × (get_max_timestamp start end oracle ≡ done m)
      × IsMax (reads_of start end s) m
unfolding get_max_timestamp
get_max_timestamp_lem start end oracle s t a q = (
  max_timestamp none (reads_of start end s),
  ap (λ o. o >>= λ v. done (max_timestamp none (map value_of v)))
      (get_overlap_lem start end oracle s t a q),
  max_timestamp-IsMax (reads_of start end s),
)

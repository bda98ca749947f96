-- ===== src/Execute/Server/Bump.antt =====
-- Why a write of src/execute/executor.rs does not change what was read before: the write timestamp
-- after `execute_write_request` has consulted the timestamp oracle.
use little_key_value_db.Prelude.{
  ordering_cases, ◌≡◌, ◌≢◌, inl, inr, refl, sym, ap, subst, lt, eq, gt, true, false, List, [], ◌∷◌,
  Option, none, some, done, ◌>>=◌, All, arith,
}
use little_key_value_db.Hlc.Timestamp.{Timestamp, cmp}
use little_key_value_db.Hlc.Timestamp.Order.{eq_of_cmp, cmp_refl, gt_of_lt}
use little_key_value_db.Storage.Bytes.{Bytes, bytes_cmp}
use little_key_value_db.Storage.Txn.{Uuid, Txn, TxnRecord, UncommittedValue}
use little_key_value_db.Storage.Store.{Engine, Serde}
use little_key_value_db.LockTable.Guard.{TxnLink, Range, SpanSet, set_txn}
use little_key_value_db.LockTable.State.{is_before}
use little_key_value_db.RbTree.Shape.{AreAscending, Shape, IsTree, inorder}
use little_key_value_db.Oracle.{OracleValue}
use little_key_value_db.Oracle.Laws.{IsBound, not_lt_trans}
use little_key_value_db.Oracle.Cache.{TimestampOracle, get_max_timestamp}
use little_key_value_db.Oracle.Cache.Reads.{reads_of, IsMax, get_max_timestamp_lem}
use little_key_value_db.Execute.Span.{RequestUnion, collect_spans}
use little_key_value_db.Execute.Server.{
  Server, span_maxima, max_from, bump_to, execute, execute_write_request,
}

-- No range ends before it starts.
abbrev pub AreForward : SpanSet → Type 0
AreForward spans = All (λ (r : Range). bytes_cmp r.start_key r.end_key ≢ gt) spans

-- The timestamp is not before any read of the ranges.
abbrev pub IsAfterReads : Timestamp → SpanSet → Shape OracleValue → Type 0
IsAfterReads t spans s = All (λ (r : Range). IsBound t (reads_of r.start_key r.end_key s)) spans

abbrev IsAbove : Timestamp → List Timestamp → Type 0
IsAbove t ms = All (λ m. cmp t m ≢ lt) ms

IsBound-above :
    (t m : Timestamp) (vs : List OracleValue) → cmp t m ≢ lt → IsBound m vs → IsBound t vs
IsBound-above t m [] a b = tt
IsBound-above t m (v ∷ vs) a (b, bs) = (not_lt_trans t m v.timestamp a b, IsBound-above t m vs a bs)

IsBound-empty : (t : Timestamp) (vs : List OracleValue) → vs ≡ [] → IsBound t vs
IsBound-empty t vs e = rw e tt

-- One round of the loop.
span_maxima-cons :
    (r : Range) (spans : SpanSet) (oracle : TimestampOracle) (s : Shape OracleValue)
    (ms : List Timestamp) (m : Option (Timestamp × Option Uuid))
    → get_max_timestamp r.start_key r.end_key oracle ≡ done m
    → span_maxima spans oracle ≡ done ms
    → IsMax (reads_of r.start_key r.end_key s) m
    → ((t : Timestamp) → IsAbove t ms → IsAfterReads t spans s)
    → (all : List Timestamp) × (span_maxima (r ∷ spans) oracle ≡ done all)
      × ((t : Timestamp) → IsAbove t all → IsAfterReads t (r ∷ spans) s)
unfolding span_maxima
span_maxima-cons r spans oracle s ms none found run is_max covers = (
  ms,
  rw (found, ◌>>=◌, run),
  λ t above. (IsBound-empty t (reads_of r.start_key r.end_key s) is_max, covers t above),
)
span_maxima-cons r spans oracle s ms (some m) found run (bound, attained) covers = (
  m.0 ∷ ms,
  rw (found, ◌>>=◌, run),
  λ t (above, rest).
      (IsBound-above t m.0 (reads_of r.start_key r.end_key s) above bound, covers t rest),
)

-- The maxima exist, and a timestamp that is not before any of them is not before any of the reads.
span_maxima_lem :
    (spans : SpanSet) (oracle : TimestampOracle) (s : Shape OracleValue)
    → IsTree oracle s
    → AreAscending (inorder s)
    → AreForward spans
    → (ms : List Timestamp) × (span_maxima spans oracle ≡ done ms)
      × ((t : Timestamp) → IsAbove t ms → IsAfterReads t spans s)
unfolding span_maxima
span_maxima_lem [] oracle s i a f = ([], refl, λ t above. tt)
span_maxima_lem (r ∷ spans) oracle s i a (f, fs) =
    let (m, found, is_max) = get_max_timestamp_lem r.start_key r.end_key oracle s i a f in
    let (ms, run, covers) = span_maxima_lem spans oracle s i a fs in
    span_maxima-cons r spans oracle s ms m found run is_max covers

later_of :
    (m t : Timestamp)
    → (u : Timestamp) × (elim (cmp m t) [ gt ↦ m | eq ↦ t | lt ↦ t ] ≡ u)
      × (cmp u m ≢ lt)
      × (cmp u t ≢ lt)
later_of m t = elim (ordering_cases (cmp m t)) [
  | inl e ↦ (t, rw e refl, ground (arith, gt_of_lt m t), ground (arith, cmp_refl t))
  | inr (inl e) ↦
      (t, rw e refl, ground (arith, eq_of_cmp m t, cmp_refl t), ground (arith, cmp_refl t))
  | inr (inr e) ↦ (m, rw e refl, ground (arith, cmp_refl m), ground arith)
]

max_from-IsAbove :
    (m : Timestamp) (ms : List Timestamp)
    → (cmp (max_from m ms) m ≢ lt) × IsAbove (max_from m ms) ms
unfolding max_from
max_from-IsAbove m [] = (ground (arith, cmp_refl m), tt)
max_from-IsAbove m (t ∷ ts) =
    let (u, e, above_m, above_t) = later_of m t in
    let (above, bound) = max_from-IsAbove u ts in
    subst (λ x. (cmp x m ≢ lt) × IsAbove x (t ∷ ts)) (sym (ap (λ x. max_from x ts) e))
      (
        not_lt_trans (max_from u ts) u m above above_m,
        (not_lt_trans (max_from u ts) u t above above_t, bound),
      )

IsAbove-IsAbove :
    (t m : Timestamp) (ms : List Timestamp) → cmp t m ≢ lt → IsAbove m ms → IsAbove t ms
IsAbove-IsAbove t m [] a b = tt
IsAbove-IsAbove t m (x ∷ ms) a (b, bs) = (not_lt_trans t m x a b, IsAbove-IsAbove t m ms a bs)

-- Only the write timestamp differs, and it is not before the old one nor before the maxima.
abbrev IsRaised : List Timestamp → Txn → Txn → Type 0
IsRaised ms t u =
    IsAbove u.write_timestamp ms
    × (cmp u.write_timestamp t.write_timestamp ≢ lt)
    × (u ≡ record t { write_timestamp = u.write_timestamp })

raise_to : Timestamp → Txn → Txn
raise_to m t = elim (is_before t.write_timestamp m) [
  | true ↦ record t { write_timestamp = m }
  | false ↦ t
]

raise_to_lem :
    (m : Timestamp) (ms : List Timestamp) (t : Txn) → IsAbove m ms → IsRaised ms t (raise_to m t)
unfolding raise_to
raise_to_lem m ms t a = elim (ordering_cases (cmp t.write_timestamp m)) [
  | inl e ↦ rw (raise_to, e) (a, ground (arith, gt_of_lt t.write_timestamp m), refl)
  | inr (inl e) ↦
      rw (raise_to, e)
        (
          IsAbove-IsAbove t.write_timestamp m ms (ground (arith, eq_of_cmp t.write_timestamp m)) a,
          ground (arith, cmp_refl t.write_timestamp),
          refl,
        )
  | inr (inr e) ↦
      rw (raise_to, e)
        (
          IsAbove-IsAbove t.write_timestamp m ms (ground arith) a,
          ground (arith, cmp_refl t.write_timestamp),
          refl,
        )
]

bump_to_lem : (ms : List Timestamp) (t : Txn) → IsRaised ms t (bump_to ms t)
unfolding bump_to raise_to
bump_to_lem [] t = (tt, ground (arith, cmp_refl t.write_timestamp), refl)
bump_to_lem (m ∷ ms) t = raise_to_lem (max_from m ms) (m ∷ ms) t (max_from-IsAbove m ms)

module _ (e : Engine) (values : Serde UncommittedValue) (records : Serde TxnRecord)
    (uuid_to_string : Uuid → Bytes) where
  -- Before it executes a request, the executor raises the write timestamp of the transaction so that
  -- it is not before any read that the oracle has recorded for a range that overlaps with a span of
  -- the request, nor before what it was; the rest of the transaction stays. The
  -- tree of the oracle is ordered by the starts of its ranges, and no span ends before it starts.
  pub execute_write_request_lem :
      (request : RequestUnion) (txn : TxnLink) (s : Server e) (shape : Shape OracleValue)
      → IsTree s.oracle shape
      → AreAscending (inorder shape)
      → AreForward (collect_spans request (s.heap.txns txn))
      → (t : Txn) × (execute_write_request e values records uuid_to_string request txn s
          ≡ execute e values records uuid_to_string request txn
              (record s { heap = set_txn txn t s.heap }))
        × IsAfterReads t.write_timestamp (collect_spans request (s.heap.txns txn)) shape
        × (cmp t.write_timestamp (s.heap.txns txn).write_timestamp ≢ lt)
        × (t ≡ record (s.heap.txns txn) { write_timestamp = t.write_timestamp })
  unfolding execute_write_request
  execute_write_request_lem request txn s shape i a f =
      let (ms, run, covers) =
        span_maxima_lem (collect_spans request (s.heap.txns txn)) s.oracle shape i a f in
      let (above, later, rest) = bump_to_lem ms (s.heap.txns txn) in
      (
        bump_to ms (s.heap.txns txn),
        rw (run, ◌>>=◌) refl,
        covers (bump_to ms (s.heap.txns txn)).write_timestamp above,
        later,
        rest,
      )

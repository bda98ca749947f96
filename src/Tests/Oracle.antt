-- ===== src/Tests/Oracle.antt =====
-- The reads of ranges, and what a write makes of them.
use little_key_value_db.Prelude.{
  ℕ, zero, suc, lt, true, ◌↔◌, false, ◌≡◌, ◌≢◌, refl, [], ◌∷◌, Option, none, some, done, arith,
  if◌then◌else◌, ◌==◌,
}
use little_key_value_db.Hlc.Timestamp.{Timestamp, cmp}
use little_key_value_db.Storage.Bytes.{Key, bytes_cmp}
use little_key_value_db.Storage.Txn.{Uuid, Txn}
use little_key_value_db.Storage.Store.Memory.{memory}
use little_key_value_db.LockTable.Guard
use little_key_value_db.LockTable.Guard.{set_txn}
use little_key_value_db.RbTree.{Node, black, nil, is_red, modify, with_color}
use little_key_value_db.RbTree.Shape.{
  Cell, Shape, leaf, branch, linked, inorder, AreAscending, IsTree,
}
use little_key_value_db.RbTree.Insert.{insert_node, fix_insert}
use little_key_value_db.RbTree.Insert.Walk.{last}
use little_key_value_db.RbTree.Insert.Order.{insert_sorted}
use little_key_value_db.RbTree.Insert.Grow.{red_cell, insert_node_lem}
use little_key_value_db.Oracle.{OracleValue, does_range_overlap}
use little_key_value_db.Oracle.Laws.{IsWithin, does_range_overlap_lem}
use little_key_value_db.Oracle.Interval.{get_overlap}
use little_key_value_db.Oracle.Interval.Overlap.{overlapping, get_overlap_lem}
use little_key_value_db.Oracle.Cache.{TimestampOracle, get_max_timestamp}
use little_key_value_db.Oracle.Cache.Reads.{reads_of, IsMax, get_max_timestamp_lem}
use little_key_value_db.Execute.Span.{put, point, collect_spans}
use little_key_value_db.Execute.Server.{Server, execute, execute_write_request}
use little_key_value_db.Execute.Server.Bump.{IsAfterReads, execute_write_request_lem}
use little_key_value_db.Tests.Data.{
  apple, banana, cherry, time, transaction, values, records, uuid_to_string,
}

does_range_overlap_lem_example :
    (does_range_overlap apple banana banana cherry ≡ true)
    ↔ ((k : Key) × IsWithin apple banana k × IsWithin banana cherry k)
unfolding bytes_cmp
does_range_overlap_lem_example =
    does_range_overlap_lem apple banana banana cherry (ground arith) (ground arith)

abbrev read_at : ℕ → Key → Key → Cell OracleValue
read_at wall_time start end = record {
  start_key = start;
  end_key = end;
  value = record { timestamp = time wall_time; txn_id = some 4 };
  color = black;
}

-- A read of `banana` at 12, and one from `apple` to `cherry` at 15.
abbrev shape : Shape OracleValue
shape = branch (branch leaf 1 (read_at 15 apple cherry) leaf) 0 (read_at 12 banana banana) leaf

abbrev nodes : ℕ → Option (Node OracleValue)
nodes zero = some (linked (read_at 12 banana banana) 1 nil nil)
nodes (suc zero) = some (linked (read_at 15 apple cherry) nil nil 0)
nodes (suc (suc n)) = none

abbrev latest : OracleValue
latest = record { timestamp = time 20; txn_id = some 5 }

abbrev oracle : TimestampOracle
oracle = record { nodes = nodes; len = 2; root = 0 }

oracle-IsTree : IsTree oracle shape
oracle-IsTree = record { root = refl; holds = (refl, refl, (refl, refl, tt, tt), tt); full = refl }

get_overlap_lem_example :
    get_overlap banana cherry oracle ≡ done (overlapping banana cherry (inorder shape))
unfolding bytes_cmp
get_overlap_lem_example =
    get_overlap_lem banana cherry oracle shape oracle-IsTree ((ground arith, tt), (tt, tt))
      (ground arith)

get_max_timestamp_lem_example :
    (m : Option (Timestamp × Option Uuid)) × (get_max_timestamp banana cherry oracle ≡ done m)
    × IsMax (reads_of banana cherry shape) m
unfolding bytes_cmp
get_max_timestamp_lem_example =
    get_max_timestamp_lem banana cherry oracle shape oracle-IsTree ((ground arith, tt), (tt, tt))
      (ground arith)

insert_node_lem_example :
    (n : Node OracleValue) × (t' : TimestampOracle) × (s' : Shape OracleValue) × (nodes
        (last cherry nil shape)
      ≡ some n)
    × IsTree t' s'
    × (inorder s' ≡ insert_sorted (red_cell cherry cherry latest) (inorder shape))
    × AreAscending (inorder s')
    × (insert_node cherry cherry latest oracle ≡ (
        if n.parent_node == nil
        then done t'
        else if is_red n.color
        then fix_insert 2 t'
        else modify t'.root (with_color black) t'))
unfolding bytes_cmp
insert_node_lem_example =
    insert_node_lem cherry cherry latest oracle (branch leaf 1 (read_at 15 apple cherry) leaf) leaf
      0 (read_at 12 banana banana) oracle-IsTree ((ground arith, tt), (tt, tt))
      ((refl, tt), tt, (tt, tt), tt, (tt, tt, tt, tt, tt, tt), tt) (refl, (refl, tt)) refl

abbrev server : Server memory
server = record {
  db = record { versions = []; records = [] };
  heap = record { guards = λ n. Guard.new n false [] n; txns = λ n. transaction n 9 };
  locks = [];
  waits = record {
    pushees = [];
    pushes = λ p. record { dependents = []; txn_id = 0; messages = 0 };
  };
  oracle = oracle;
}

execute_write_request_lem_example :
    (t : Txn) × (execute_write_request memory values records uuid_to_string
        (put banana (6 ∷ []))
        7
        server
      ≡ execute memory values records uuid_to_string
          (put banana (6 ∷ []))
          7
          (record server { heap = set_txn 7 t server.heap }))
    × IsAfterReads t.write_timestamp (point banana ∷ []) shape
    × (cmp t.write_timestamp (time 9) ≢ lt)
    × (t ≡ record (transaction 7 9) { write_timestamp = t.write_timestamp })
unfolding bytes_cmp collect_spans
execute_write_request_lem_example =
    execute_write_request_lem memory values records uuid_to_string (put banana (6 ∷ [])) 7 server
      shape oracle-IsTree ((ground arith, tt), (tt, tt)) (ground arith, tt)

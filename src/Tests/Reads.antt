-- ===== src/Tests/Reads.antt =====
-- Reads of a store in memory.
use little_key_value_db.Prelude.{
  Option, unfinished, ◌≢◌, ◌≡◌, refl, List, [], ◌∷◌, none, some, done, arith,
}
use little_key_value_db.Storage.Iterator.Seek.{raws, Entry}
use little_key_value_db.Storage.Iterator.{at_most}
use little_key_value_db.Storage.Key.{is_intent_key, create_intent_key}
use little_key_value_db.Storage.Bytes.{bytes_eq, bytes_cmp}
use little_key_value_db.Storage.Mvcc.{mvcc_get}
use little_key_value_db.Storage.Iterator
use little_key_value_db.Storage.Scanner
use little_key_value_db.Storage.Scanner.{MvccScanner, scan}
use little_key_value_db.Storage.Scanner.Finish.{scan_finishes}
use little_key_value_db.Storage.Mvcc.Latest.{mvcc_get-IsLatest, IsLatest}
use little_key_value_db.Storage.Mvcc.Read.{mvcc_get-absent}
use little_key_value_db.Storage.Store.Memory.{memory, MemoryDb, insert, remove}
use little_key_value_db.Storage.Store.{find}
use little_key_value_db.Hlc.Timestamp.{cmp}
use little_key_value_db.Tests.Data.{apple, banana, cherry, version, time, values, uncommitted}

abbrev stored : List Entry → MemoryDb
stored es = record { versions = raws es; records = [] }

abbrev three_versions : List Entry
three_versions =
    version apple 4 (9 ∷ [])
    ∷ version banana 8 (6 ∷ [])
    ∷ version banana 5 (7 ∷ [])
    ∷ version cherry 1 []
    ∷ []

abbrev intent : Entry
intent = (create_intent_key banana, values.to_json (uncommitted 3 9 (5 ∷ [])))

mvcc_get-IsLatest_example :
    (r : Option Entry) × (mvcc_get memory values banana (time 6) none (stored three_versions)
      ≡ done (record { value = r; intent = none }))
    × IsLatest (time 6) (version banana 8 (6 ∷ []) ∷ version banana 5 (7 ∷ []) ∷ []) r
unfolding find insert remove mvcc_get at_most cmp bytes_eq bytes_cmp is_intent_key
mvcc_get-IsLatest_example =
    mvcc_get-IsLatest memory values banana (time 6) none (stored three_versions)
      (version apple 4 (9 ∷ []) ∷ []) (version banana 8 (6 ∷ [])) (version banana 5 (7 ∷ []) ∷ [])
      (version cherry 1 [] ∷ []) refl
      (record {
        words_before = omega arith;
        words = omega arith;
        words_after = omega arith;
        before = (refl, tt);
        of_key = (refl, (refl, tt));
        after_key = (refl, tt);
      })
      ((refl, tt), (tt, tt)) refl

mvcc_get-absent_example :
    mvcc_get memory values banana (time 9) none (stored (version apple 4 (9 ∷ []) ∷ []))
    ≡ done (record { value = some (version apple 4 (9 ∷ [])); intent = none })
unfolding find insert remove mvcc_get at_most cmp bytes_cmp is_intent_key
mvcc_get-absent_example =
    mvcc_get-absent memory values banana (time 9) none (stored (version apple 4 (9 ∷ []) ∷ []))
      (version apple 4 (9 ∷ [])) [] refl (omega arith) (refl, tt) refl refl

-- A scan of all keys up to `cherry`, at most ten records.
abbrev wide : MvccScanner
wide = Scanner.new (Iterator.new (raws three_versions)) apple (some cherry) (time 6) 10 none

scan_finishes_example : scan values wide ≢ unfinished
scan_finishes_example = scan_finishes values wide

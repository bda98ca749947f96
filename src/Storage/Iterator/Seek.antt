-- ===== src/Storage/Iterator/Seek.antt =====
-- Where `seek_ge` of src/storage/mvcc_iterator.rs leaves the iterator over a listing of encoded
-- versioned keys.
use little_key_value_db.Prelude.{
  ◌≡◌, refl, ap, true, false, List, [], ◌∷◌, ◌++◌, Option, some, done, ◌>>=◌, All, append-nil,
}
use little_key_value_db.Hlc.Timestamp.{IsWord}
use little_key_value_db.Storage.Bytes.{Value}
use little_key_value_db.Storage.Key.{MvccKey, encode_mvcc_key}
use little_key_value_db.Storage.Key.Codec.{decode_mvcc_key-encode}
use little_key_value_db.Storage.Iterator.{
  KvBytes, MvccIterator, new, convert_raw_key_to_mvcc_key, current_key, is_sought, seek_loop,
  seek_ge,
}

abbrev pub Entry : Type 0
Entry = MvccKey × Value

-- The pair that stores an entry.
abbrev pub raw : Entry → KvBytes
raw e = (encode_mvcc_key e.0, e.1)

abbrev pub raws : List Entry → List KvBytes
raws [] = []
raws (e ∷ es) = raw e ∷ raws es

abbrev pub AreWords : List Entry → Type 0
AreWords es = All (λ e. IsWord e.0.timestamp) es

-- No entry is what the search for `key` looks for.
abbrev pub Misses : MvccKey → List Entry → Type 0
Misses key es = All (λ e. is_sought e.0 key ≡ false) es

-- An iterator that stands on an entry, with pairs to come.
abbrev pub at : Entry → List KvBytes → MvccIterator
at e rest = record { it = rest; curr_kv = some (raw e); is_done = false }

-- The last of the entries, or `e` where there is none.
abbrev pub last_or : Entry → List Entry → Entry
last_or e [] = e
last_or e (d ∷ ds) = last_or d ds

pub convert-raw :
    (e : Entry)
    → IsWord e.0.timestamp
    → convert_raw_key_to_mvcc_key (encode_mvcc_key e.0) ≡ done e.0
unfolding convert_raw_key_to_mvcc_key
convert-raw e w = rw (decode_mvcc_key-encode e.0 w)

pub current_key-at :
    (e : Entry) (rest : List KvBytes) → IsWord e.0.timestamp → current_key (at e rest) ≡ done e.0
unfolding current_key
current_key-at e rest w = convert-raw e w

pub seek_loop-miss :
    (key : MvccKey) (e : Entry) (pre : List Entry) (rest : List KvBytes)
    → AreWords pre
    → Misses key pre
    → seek_loop (raws pre ++ rest) (some (raw e)) key
      ≡ seek_loop rest (some (raw (last_or e pre))) key
unfolding seek_loop
seek_loop-miss key e [] rest w m = refl
seek_loop-miss key e (d ∷ pre) rest w m =
    rw (convert-raw d w.0, ◌>>=◌, m.0) (seek_loop-miss key d pre rest w.1 m.1)

pub seek_loop-hit :
    (key : MvccKey) (curr : Option KvBytes) (e : Entry) (rest : List KvBytes)
    → IsWord e.0.timestamp
    → is_sought e.0 key ≡ true
    → seek_loop (raw e ∷ rest) curr key ≡ done (at e rest, true)
unfolding seek_loop
seek_loop-hit key curr e rest w h = rw (convert-raw e w, ◌>>=◌, h)

-- From an entry that is not sought, the search goes to the first entry to come that is.
pub seek_ge-later :
    (key : MvccKey) (c : Entry) (pre : List Entry) (e : Entry) (rest : List KvBytes)
    → AreWords (c ∷ pre)
    → Misses key (c ∷ pre)
    → IsWord e.0.timestamp
    → is_sought e.0 key ≡ true
    → seek_ge (at c (raws pre ++ (raw e ∷ rest))) key ≡ done (at e rest, true)
unfolding seek_ge
seek_ge-later key c pre e rest w m v h =
    rw
      (
        current_key-at c (raws pre ++ (raw e ∷ rest)) w.0,
        m.0,
        seek_loop-miss key c pre (raw e ∷ rest) w.1 m.1,
      )
      (seek_loop-hit key _ e rest v h)

-- If no entry is sought, the search ends on the last entry, and the iterator stays valid.
pub seek_ge-Misses :
    (key : MvccKey) (c : Entry) (es : List Entry)
    → AreWords (c ∷ es)
    → Misses key (c ∷ es)
    → seek_ge (at c (raws es)) key ≡ done (at (last_or c es) [], false)
unfolding seek_ge seek_loop encode_mvcc_key
seek_ge-Misses key c es w m = rw (
  current_key-at c (raws es) w.0,
  m.0,
  ← append-nil (raws es),
  seek_loop-miss key c es [] w.1 m.1,
)

pub seek_ge-here :
    (key : MvccKey) (e : Entry) (rest : List KvBytes)
    → IsWord e.0.timestamp
    → is_sought e.0 key ≡ true
    → seek_ge (at e rest) key ≡ done (at e rest, true)
unfolding seek_ge
seek_ge-here key e rest w h = rw (current_key-at e rest w, h)

-- A new iterator stands on the first entry; the search goes on to the first entry that is sought.
pub seek_ge-new :
    (key : MvccKey) (pre : List Entry) (e : Entry) (rest : List KvBytes)
    → AreWords pre
    → Misses key pre
    → IsWord e.0.timestamp
    → is_sought e.0 key ≡ true
    → seek_ge (new (raws pre ++ (raw e ∷ rest))) key ≡ done (at e rest, true)
unfolding new
seek_ge-new key [] e rest w m v h = seek_ge-here key e rest v h
seek_ge-new key (c ∷ pre) e rest w m v h = seek_ge-later key c pre e rest w m v h

pub raws-append : (xs ys : List Entry) → raws (xs ++ ys) ≡ raws xs ++ raws ys
raws-append [] ys = refl
raws-append (x ∷ xs) ys = ap (◌∷◌ (raw x)) (raws-append xs ys)

pub last_or-IsWord :
    (e : Entry) (es : List Entry) → AreWords (e ∷ es) → IsWord (last_or e es).0.timestamp
last_or-IsWord e [] w = w.0
last_or-IsWord e (d ∷ es) w = last_or-IsWord d es w.1

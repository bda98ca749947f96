-- ===== src/Latch/Manager/Single.antt =====
-- What `acquire` and `release` of src/latch_manager/latch_manager.rs do to a tree of a single leaf.
use little_key_value_db.Prelude.{
  ℕ, suc, ◌≡◌, refl, sym, ap, subst, ◌∙◌, inl, inr, true, List, [], ◌∷◌, Option, none, some,
  Outcome, done, panicked, unfinished, ◌>>=◌, unwrap, length, length-append, ltb, ◌==◌, ==_iff,
  ==_refl, Bool-cases, arith,
}
use std.Path.{fun_ext}
use little_key_value_db.Storage.Bytes.{Key}
use little_key_value_db.LockTable.Guard.{Range}
use little_key_value_db.Execute.Span.{point}
use little_key_value_db.Latch.Node.{LatchNode, Node, leaf, LeafNode, has_room}
use little_key_value_db.Latch.Node.Leaf.{
  LatchKeyGuard, acquired, find_key_idx, insert_range, remove_key,
}
use little_key_value_db.Latch.Node.Leaf.Split.{IsPaired}
use little_key_value_db.Latch.Node.Leaf.Places.{IsAscending}
use little_key_value_db.Latch.Node.Leaf.Ranges.{inserted, insert_range_lem, remove_key-insert_range}
use little_key_value_db.Latch.Tree.{BTree, store}
use little_key_value_db.Latch.Tree.Insert.{insert, insert_helper, insert_leaf}
use little_key_value_db.Latch.Tree.Delete.{delete, delete_helper, delete_key}
use little_key_value_db.Latch.Manager.{
  LatchEvent, latch_released, latch_timed_out, acquire_span, acquire_spans, acquire_loop, acquire,
  delete_spans, release,
}

-- The tree is a single leaf, whose ranges are paired and ascend, with room for one more.
pub record IsSingle (t : BTree) : Type 0 where
  pub link : LatchNode
  pub n : LeafNode
  pub root : t.root ≡ some link
  pub node : t.nodes link ≡ some (leaf n)
  pub paired : IsPaired n
  pub ascending : IsAscending n.start_keys
  pub room : ltb (suc (length n.start_keys)) n.order ≡ true

result_leaf : LeafNode → Outcome (LeafNode × LatchKeyGuard) → LeafNode
result_leaf n (done r) = r.0
result_leaf n panicked = n
result_leaf n unfinished = n

-- The latched leaf has room, and gives the leaf back.
latched_leaf :
    (range : Range) (n : LeafNode)
    → IsPaired n
    → IsAscending n.start_keys
    → ltb (suc (length n.start_keys)) n.order ≡ true
    → find_key_idx range.start_key n.start_keys ≡ none
    → (n' : LeafNode) × (insert_range range n ≡ done (n', acquired))
      × (has_room n'.start_keys n'.order ≡ true)
      × (remove_key range.start_key n' ≡ done (n, true))
unfolding result_leaf
latched_leaf range n paired asc room absent =
    let (n', run, back) = remove_key-insert_range range n paired asc absent in
    let (i, run2, pairs, ascends) = insert_range_lem range n paired asc absent in
    let same : inserted i ≡ n' = ap (result_leaf n) (sym run2 ∙ run) in
    (
      n',
      run,
      subst (λ m. has_room m.start_keys m.order ≡ true) same
          (subst (λ k. ltb k n.order ≡ true)
            (omega (
              arith,
              ap length i.keys,
              length-append i.before i.after,
              length-append i.before (range.start_key ∷ i.after),
            ))
            room),
      back,
    )

stored_at :
    (t : BTree) (link q : LatchNode) (n m : Node)
    → t.nodes link ≡ some n
    → (store link n (store link m t)).nodes q ≡ t.nodes q
stored_at t link q n m held = elim (Bool-cases (link == q)) [
  | inl same ↦ rw (same) (sym held ∙ ap t.nodes ((==_iff link q).0 same))
  | inr differs ↦ rw (differs) refl
]

store_back :
    (t : BTree) (link : LatchNode) (n m : Node)
    → t.nodes link ≡ some n
    → store link n (store link m t) ≡ t
store_back t link n m held =
    ap (λ (nodes : LatchNode → Option Node). record t { nodes = nodes })
      (fun_ext (λ q. stored_at t link q n m held))

insert_at_root :
    (range : Range) (t : BTree) (link : LatchNode)
    → t.root ≡ some link
    → insert range t ≡ insert_helper (suc t.next) none link range t
unfolding insert
insert_at_root range t link root =
    ap (λ r. unwrap r >>= λ node. insert_helper (suc t.next) none node range t) root

insert_at_leaf :
    (range : Range) (t : BTree) (link fuel : ℕ) (n n' : LeafNode)
    → t.nodes link ≡ some (leaf n)
    → insert_range range n ≡ done (n', acquired)
    → has_room n'.start_keys n'.order ≡ true
    → insert_helper (suc fuel) none link range t ≡ done (store link (leaf n') t, acquired)
unfolding insert_helper insert_leaf
insert_at_leaf range t link fuel n n' node run room = rw (node, run, room) refl

delete_at_leaf :
    (key : Key) (t : BTree) (link fuel : ℕ) (n n' : LeafNode)
    → t.nodes link ≡ some (leaf n')
    → remove_key key n' ≡ done (n, true)
    → delete_helper (suc fuel) key none link true t ≡ done (store link (leaf n) t, none)
unfolding delete_helper delete_key
delete_at_leaf key t link fuel n n' node run = rw (node, run) refl

delete_at_root :
    (key : Key) (t t' : BTree) (link : LatchNode) (n : LeafNode)
    → t.root ≡ some link
    → delete_helper (suc t.next) key none link true t ≡ done (t', none)
    → t'.nodes link ≡ some (leaf n)
    → delete key t ≡ done t'
unfolding delete
delete_at_root key t t' link n root run node = rw (root, run, node) refl

-- The latch of a key that nobody holds, taken and given back: the tree is as it was.
insert_single :
    (key : Key) (t : BTree) (single : IsSingle t)
    → find_key_idx key single.n.start_keys ≡ none
    → (t' : BTree) × (insert (point key) t ≡ done (t', acquired)) × (delete key t' ≡ done t)
insert_single key t single absent =
    let link = single.link in
    let (n', run, room, back) =
      latched_leaf (point key) single.n single.paired single.ascending single.room absent in
    let t' = store link (leaf n') t in
    let restored : store link (leaf single.n) t' ≡ t =
      store_back t link (leaf single.n) (leaf n') single.node in
    (
      t',
      insert_at_root (point key) t link single.root
          ∙ insert_at_leaf (point key) t link t.next single.n n' single.node run room,
      delete_at_root key t' t link single.n single.root
          (delete_at_leaf key t' link t.next single.n n' (rw (==_refl link) refl) back
            ∙ ap (λ (u : BTree). done (u, none)) restored)
          single.node,
    )

acquire_span-acquired :
    (span : Range) (events : List LatchEvent) (t t' : BTree)
    → insert span t ≡ done (t', acquired)
    → acquire_span span events t ≡ done (t', events, true)
unfolding acquire_span
acquire_span-acquired span [] t t' run = rw (run) refl
acquire_span-acquired span (latch_released ∷ events) t t' run = rw (run) refl
acquire_span-acquired span (latch_timed_out ∷ events) t t' run = rw (run) refl

pub acquire_single :
    (key : Key) (events : List LatchEvent) (t : BTree) (single : IsSingle t)
    → find_key_idx key single.n.start_keys ≡ none
    → (t' : BTree) × (acquire (point key ∷ []) events t ≡ done (t', events))
      × (release (point key ∷ []) t' ≡ done t)
unfolding acquire acquire_loop acquire_spans release delete_spans
acquire_single key events t single absent =
    let (t', run, back) = insert_single key t single absent in
    (t', rw (acquire_span-acquired (point key) events t t' run) refl, rw (back) refl)

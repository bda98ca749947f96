-- ===== src/LockTable/Guard.antt =====
-- The guards of src/lock_table/lock_table.rs. Guards and transactions are shared objects behind
-- `Arc`: a link is an address, and `Heap` holds what it points to. The channel of a guard has room
-- for one message.
use little_key_value_db.Prelude.{
  ℕ, zero, suc, Bool, false, List, Outcome, done, unfinished, if◌then◌else◌, ◌==◌,
}
use little_key_value_db.Storage.Bytes.{Key}
use little_key_value_db.Storage.Txn.{Uuid, Txn, TxnMetadata, to_txn_metadata}

-- `Range<Key>` of src/latch_manager/latch_interval_btree.rs
pub record Range : Type 0 where
  pub start_key : Key
  pub end_key : Key

-- `SpanSet<Key>` of src/execute/request.rs
abbrev pub SpanSet : Type 0
SpanSet = List Range

pub data WaitingState : Type 0 where
  waiting done_waiting : WaitingState

-- Links to a transaction and to a guard.
abbrev pub TxnLink : Type 0
TxnLink = ℕ

abbrev pub LockTableGuardLink : Type 0
LockTableGuardLink = ℕ

pub record LockTableGuard : Type 0 where
  pub should_wait : Bool
  pub txn : TxnLink
  -- the messages that `wait_done_receiver` has not taken
  pub messages : ℕ
  pub guard_id : Uuid
  pub is_read_only : Bool
  pub wait_state : WaitingState
  pub keys : SpanSet

pub record Heap : Type 0 where
  pub guards : LockTableGuardLink → LockTableGuard
  pub txns : TxnLink → Txn

abbrev pub update {ℓ} : {A : Type ℓ} → (ℕ → A) → ℕ → A → ℕ → A
update f p a q = if p == q then a else f q

-- `LockTableGuard::new`, with the id that `Uuid::new_v4` draws
abbrev pub new : TxnLink → Bool → SpanSet → Uuid → LockTableGuard
new txn is_read_only keys guard_id = record {
  should_wait = false;
  txn = txn;
  messages = 0;
  guard_id = guard_id;
  is_read_only = is_read_only;
  wait_state = done_waiting;
  keys = keys;
}

abbrev pub set_guard : LockTableGuardLink → LockTableGuard → Heap → Heap
set_guard link guard h = record h { guards = update h.guards link guard }

abbrev pub set_txn : TxnLink → Txn → Heap → Heap
set_txn link t h = record h { txns = update h.txns link t }

unfoldable pub should_wait : LockTableGuardLink → Heap → Bool
should_wait link h = (h.guards link).should_wait

unfoldable pub set_should_wait : LockTableGuardLink → Bool → Heap → Heap
set_should_wait link b h = set_guard link (record (h.guards link) { should_wait = b }) h

unfoldable pub update_wait_state : LockTableGuardLink → WaitingState → Heap → Heap
update_wait_state link state h = set_guard link (record (h.guards link) { wait_state = state }) h

-- A send into the full channel waits until the receiver takes the message.
unfoldable pub done_waiting_at_lock : LockTableGuardLink → Heap → Outcome Heap
done_waiting_at_lock link h = elim (h.guards link).messages [
  | zero ↦
      done (set_guard link (record (h.guards link) { messages = 1; wait_state = done_waiting }) h)
  | suc n ↦ unfinished
]

unfoldable pub txn_of : LockTableGuardLink → Heap → Txn
txn_of link h = h.txns (h.guards link).txn

unfoldable pub get_txn_meta : LockTableGuardLink → Heap → TxnMetadata
unfolding txn_of
get_txn_meta link h = to_txn_metadata (txn_of link h)

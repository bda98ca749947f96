-- ===== src/Storage.antt =====
-- src/storage: versioned keys, their encoding and order, the store, the iterator, the scanner, the
-- transactions and the MVCC operations.
pub mod Bytes
pub mod Key
pub mod Txn
pub mod Store
pub mod Iterator
pub mod Scanner
pub mod Mvcc

-- ===== src/Store.antt =====
-- src/store: keys, values and the key-value store of one node.
pub mod Key
pub mod KeyBuff
pub mod Value
pub mod KvStore
mod Tests

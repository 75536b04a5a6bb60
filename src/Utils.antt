-- ===== src/Utils.antt =====
-- src/utils: strings, and the containers that the other components are built from.
pub mod Str
pub mod Hashed
pub mod Map
pub mod Array
pub mod Queue
pub mod StrMap
mod Tests
pub mod DataType
pub mod Decimal
pub mod Args
pub mod StrBuff

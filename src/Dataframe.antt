-- ===== src/Dataframe.antt =====
-- src/dataframe: what columns are stored in.
pub mod Block
pub mod Cache
pub mod KeyArr
pub mod Item
pub mod Distributed
pub mod Schema
pub mod Column
pub mod Row
pub mod ColumnArray
pub mod DataFrame
pub mod Visit
pub mod DataToDf
mod Tests

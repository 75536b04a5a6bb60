-- ===== src/Application.antt =====
-- src/application: the threads of a node.
pub mod Receiver
mod Tests

-- ===== src/Protocol.antt =====
-- The shared types of packages/protocol.
pub mod Context
pub mod Wire
pub mod Size

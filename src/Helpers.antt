-- ===== src/Helpers.antt =====
-- internal/utils.py: the helpers of the encrypted clients.
pub mod Tables
pub mod Reading
pub mod Writing

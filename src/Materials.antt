-- ===== src/Materials.antt =====
-- The classes of cryptographic materials (materials/raw.py and materials/wrapped.py).
pub mod Raw
pub mod Wrapped

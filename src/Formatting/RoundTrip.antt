-- ===== src/Formatting/RoundTrip.antt =====
-- What was serialized is read back. The parts: scalars and sets, and then the entries of a map.
pub mod Values
pub mod Scalars
pub mod Entries
pub mod Attributes

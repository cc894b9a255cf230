-- ===== src/Runfiles.antt =====
-- python/runfiles/runfiles.py: the lookup of runfiles at run time.
pub mod Mapping
pub mod Manifest
pub mod Strategy
pub mod Caller
pub mod Location
mod Tests

-- ===== src/Wheel.antt =====
-- tools/wheelmaker.py: the names, the archive and the metadata of a wheel.
pub mod Naming
pub mod Archive
pub mod Metadata
pub mod Command
mod Tests

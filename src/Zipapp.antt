-- ===== src/Zipapp.antt =====
-- tools/private/zipapp/zipper.py: the manifest of a zip application and the zip it makes.
pub mod Entry
pub mod Write
pub mod Lines
pub mod Attributes
pub mod Names
pub mod Precedence
mod Tests

-- ===== src/Text.antt =====
-- The methods of Python's `str` that the program calls.
mod Search
mod Split
mod Strip
mod Decimal
mod Trimmed
mod Lines
unfoldable pub use Search.*
unfoldable pub use Split.*
unfoldable pub use Decimal.*
unfoldable pub use Strip.*
pub use Trimmed.*
pub use Lines.*

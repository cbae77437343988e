-- ===== src/Json.antt =====
-- JSON values as the program sees them: the interface, and an instance of it.
mod Defs
pub mod Tree
pub use Defs.{Json}

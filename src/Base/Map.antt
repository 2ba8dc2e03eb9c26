-- ===== src/Base/Map.antt =====
-- `std::map`: an association list in ascending order of its keys. No code of the repository.
mod Defs
pub mod Laws
pub mod Order
unfoldable pub use Defs.*

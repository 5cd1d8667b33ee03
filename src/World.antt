-- ===== src/World.antt =====
-- What src-tauri/src/storage works on beside its manifest: files, randomness and progress calls.
-- A fallible function of the source is an action `Exec A`: it takes the world, and returns a result
-- and the world that it leaves, on its error paths too.
mod Outside
mod Paths
mod Actions
pub mod Files
pub mod Inversion
pub mod Keeping
unfoldable pub use Outside.*
unfoldable pub use Paths.*
unfoldable pub use Actions.*

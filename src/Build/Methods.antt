-- ===== src/Build/Methods.antt =====
-- tooling/miniutil/src/build/statement.rs and terminator.rs: the methods of the builder.
pub mod Blocks
pub mod Calls
pub mod Intrinsics
pub mod Control
unfoldable pub use Blocks.*
unfoldable pub use Calls.*
unfoldable pub use Intrinsics.*
unfoldable pub use Control.*

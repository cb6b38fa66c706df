-- ===== src/Minimize.antt =====
-- tooling/minimize: the translation of Rust's MIR to MiniRust, with what rustc says as
-- data or arguments.
pub mod Chunks
pub mod Cells
pub mod Mir
pub mod Place
pub mod Cast
pub mod Rvalue
pub mod Bits
pub mod Intrinsics
pub mod Call
pub mod Body
pub mod Function
pub mod Context
pub mod Unwind

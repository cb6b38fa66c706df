-- ===== src/Build.antt =====
-- tooling/miniutil/src/build: the library that builds programs.
pub mod Ty
pub mod Expr
pub mod Operators
pub mod Terminators
pub mod State
pub mod Statements
pub mod Methods
pub mod Function
pub mod Program
pub mod Globals
pub mod Shape

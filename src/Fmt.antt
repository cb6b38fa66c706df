-- ===== src/Fmt.antt =====
-- tooling/miniutil/src/fmt: printing programs.
pub mod Text
pub mod State
pub mod Ty
pub mod Expr
pub mod Statement
pub mod Function
pub mod Program

-- ===== src/Js.antt =====
-- The JavaScript values that reach the program as `unknown`, and the run-time operations on them:
-- what domain/*.ts asks of `typeof`, `Object.keys`, `in`, `Number`, `Date` and `String`.
-- `Runtime` is the host's floating-point and date arithmetic, a parameter of the model.
mod Objects
mod Texts
mod Dates
mod Maps
mod Numbers
pub mod Trim
unfoldable pub use Objects.*
unfoldable pub use Texts.*
unfoldable pub use Dates.*
pub use Maps.*
unfoldable pub use Numbers.*

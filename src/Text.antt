-- ===== src/Text.antt =====
-- Go strings as lists of bytes, and what the program calls of the packages strings, strconv and fmt.
-- Unicode upper-case mapping outside ASCII is a table of the standard library, and a parameter.
mod Bytes
mod Space
mod Decimal
pub mod Order
pub mod Trim
pub mod Digits
pub mod Cut
pub mod Paths
pub mod Ends
pub mod Sorting
unfoldable pub use Bytes.*
unfoldable pub use Space.*
unfoldable pub use Decimal.*

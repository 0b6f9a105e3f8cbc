-- ===== src/Prelude/Table.antt =====
-- A database table as the list of its rows.
mod Rows
mod Updates
mod Select
mod Members
unfoldable pub use Rows.*
pub use Updates.*
pub use Select.*
pub use Members.*

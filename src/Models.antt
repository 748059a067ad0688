-- ===== src/Models.antt =====
-- The rows of the database (app/models) and the state of a request's database session. Amounts
-- are whole hundredths, the scale of the columns Numeric(18, 2).
mod Rows
mod Session
pub mod Keeps
pub use Rows.*
unfoldable pub use Session.*

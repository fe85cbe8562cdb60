-- ===== src/Store.antt =====
-- The database as the code sees it: the rows of sqlc/models.go, and the transactions of
-- services/controllers/transaction.go.
mod Models
mod Monad
mod Rules
pub use Models.*
unfoldable pub use Monad.*
pub use Rules.*

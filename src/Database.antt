-- ===== src/Database.antt =====
-- The tables of backend/prisma/schema.prisma with the constraints of backend/prisma/migrations, and
-- the transactions that run on them. Ids are only compared, so they are numbers; a new row's id is
-- its sequence number. A column with a CHECK that it is not negative is a number of units.
mod Rows
mod Constraints
mod Transaction
pub mod Laws
pub use Rows.*
unfoldable pub use Constraints.*
unfoldable pub use Transaction.*

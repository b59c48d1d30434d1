-- ===== src/Ledger.antt =====
-- The ledger of the tables: `mutation_log` and what must agree with it.
pub mod Same
pub mod Mirror
pub mod Backing
pub mod Growth
pub mod Book
pub mod Keys
pub mod Inserts
pub mod Updates
pub mod Inserted
pub mod Written
pub mod Typed
pub mod Totals
pub mod Reported

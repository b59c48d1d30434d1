-- ===== src/Safety.antt =====
-- Properties of the tables that their three writes keep, carried through a run. The writes are the edits
-- of the injector, the insertion of a permit, and the executor's transaction.
pub mod Core
pub mod Runs
pub mod Whole
pub mod Rejected
pub mod Refusals
pub use Core.*

-- ===== src/Executor.antt =====
-- The containers that agents and artifacts run in: phylax/harness/executor.py. What docker answers,
-- the clock, and the files that are copied out are parameters that may depend on all that was asked
-- before; the local files are written without error.
pub mod Words
pub mod Action
pub mod Await
pub mod Agent
pub mod Left
pub mod Removed
pub mod Ends
pub mod Reach
pub mod Deadline
pub mod Finished
pub mod Refused

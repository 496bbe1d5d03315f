-- ===== src/Tests.antt =====
-- Tests, and the theorems at concrete inputs.
pub mod Sim
mod Log
mod Wire
mod Queries
mod Faults
mod Unsynced
mod Requests
mod Load
mod Databases
mod Sessions
mod Serving
mod Waiting
mod Measured
mod Printed
mod Whole

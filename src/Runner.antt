-- ===== src/Runner.antt =====
-- src/oreeai_notetaker/workers/bot_runner.py: the runner.
pub mod ExitTable
pub mod Result
pub mod ResultLine
pub mod Host
pub mod Dispatch
pub mod Exit
pub mod Meaning
pub mod Effects
pub mod Settles
pub mod Conclude
pub mod Contract
pub mod Typed
pub mod Late
pub mod Ending
pub mod Poll
pub mod Spawn
pub mod Sweeps
pub mod Turns
pub mod Swept
pub mod Stale
pub mod Orphans
pub mod Course
pub mod Environment
pub mod Safe
pub mod SafeRows
pub mod SafeExit
pub mod Main
pub mod SafeSweeps
pub mod SafeTasks
pub mod Refinement
pub mod Queue
pub mod Claim

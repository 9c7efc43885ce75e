-- ===== src/Fold.antt =====
-- internal/fold: the state of an execution, the fold of an event into it, and the decisions.
pub mod State
pub mod Reduce
pub mod Apply
pub mod Decide
pub mod Rules
pub mod Frame
pub mod Replay
pub mod Placed
pub mod Heads
pub mod Versions
pub mod Numbering
pub mod Writes
mod Joins
mod MapLoop
mod Waiting
mod Stale
mod Aborts
mod Signals
pub mod Scenarios

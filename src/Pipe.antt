-- ===== src/Pipe.antt =====
-- pipe/: the parameter sets that travel with messages, and the state machine behind the methods of
-- a pipe.
pub mod Params
pub mod Message
pub mod Machine
pub mod Transition
pub mod Loop
pub mod Broadcast
pub mod MergeErrors
pub mod Meter
pub mod Runner
pub mod Building

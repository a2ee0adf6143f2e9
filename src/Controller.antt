-- ===== src/Controller.antt =====
-- The controller's side of a run: its failed runner Jobs, and a run that waits for a callback.
pub mod Failure
pub mod Resume
mod Samples

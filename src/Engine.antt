-- ===== src/Engine.antt =====
-- workflow/pkg/engine: the execution of one workflow and the calls of the engine's interface.
pub mod Node
pub mod Loop
pub mod Rounds
pub mod Effect
pub mod Steps
pub mod Complete
pub mod Smooth
pub mod Api
pub mod Execute
pub mod Pausing
pub mod Once
pub mod Keeps
pub mod Closing
pub mod Outcome

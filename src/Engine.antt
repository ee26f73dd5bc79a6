-- ===== src/Engine.antt =====
-- crates/cycbox-engine/src/: the engine's tasks. Engine/DelayQueue.antt has the task that sends
-- messages at their time, Engine/Connection.antt what a connection does with a message.
pub mod DelayQueue
pub mod Connection
pub mod ConnectionTask
pub mod Reconnect
pub mod EngineTask

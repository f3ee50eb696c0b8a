-- ===== src/Orchestrator.antt =====
-- orchestrator.py: one chat turn as a cyclic graph of three nodes, supervisor, local_llm and
-- tool_execution, and the write gate that holds calendar writes back for the user's "yes".
pub mod State
pub mod Compose
pub mod World
pub mod Affirmation
pub mod Gate
pub mod Supervisor
pub mod Tools
pub mod Worker
pub mod Graph
pub mod Stream
pub mod Tests

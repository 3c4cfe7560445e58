-- ===== src/Schema.antt =====
-- src/orchestrator/schema.py, one module for each dataclass.
pub mod Basics
pub mod Artifact
pub mod Node
pub mod Graph
pub mod Scope
pub mod Status
pub mod Envelope
pub mod Memo

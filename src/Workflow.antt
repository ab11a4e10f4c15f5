-- ===== src/Workflow.antt =====
-- core/workflow: multi-agent workflows. Types and World hold the data and the state of a node's
-- engine, Definition the check of a definition, Coordinator the human decisions, Engine the steps,
-- Handler the events that come in.
pub mod Types
pub mod Definition
pub mod World
pub mod Coordinator
pub mod Engine
pub mod Handler

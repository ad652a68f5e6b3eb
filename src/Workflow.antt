-- ===== src/Workflow.antt =====
-- src/modules/workflows: the graphs that the hooks of the bot walk, the queue of senders that wait
-- for an agent, and the requests that change workflows.
pub mod Graph
pub mod HotQueue
pub mod Data
pub mod Call
pub mod Hook
pub mod Records
pub mod Controller
pub mod Rules
pub mod Activation
pub mod Invariant
pub mod Keeps
pub mod Requests

-- ===== src/Node.antt =====
-- zen_claw/node/service.py: the node registry, the task queue and the approval events.
pub mod Data
pub mod Payload
pub mod Tokens
pub mod Access
pub mod Policies
pub mod PolicyLaws
pub mod Events
pub mod Submit
pub mod Queue
pub mod Approvals
pub mod Machine
pub mod Capacity
pub mod Changes
pub mod Steps
pub mod Quorum
pub mod Moves
pub mod EventLog
pub mod Chain
pub mod Replays
mod Tests

-- ===== src/Permissions.antt =====
-- The permission layer (src/carve/core/agents/permissions): the mode lattice, the policy that is
-- computed once for an agent, and the gates that each tool call and each shell command pass.
mod Tests
pub mod Modes
pub mod Tables
pub mod Policy
pub mod Shlex
pub mod Bash
pub mod Gate

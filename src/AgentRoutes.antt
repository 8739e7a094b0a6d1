-- ===== src/AgentRoutes.antt =====
-- The routes of the agents (controller/src/api/routes/agents.ts), in parts. A handler is a function of
-- what the database answers; a reply is its status code and the text of its body.
pub mod Data
pub mod Update
pub mod Rollback
pub mod Versions
pub mod Restart
mod Tests

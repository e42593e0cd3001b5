-- ===== src/Agents.antt =====
-- agents/shared: what a role may call, and which tools its model is shown.
pub mod RoleTools
pub mod Gate
pub mod Loop
pub mod Requests
pub mod Toolbox
pub mod Telemetry
pub mod Logging
pub mod Start

-- ===== src/Mocks.antt =====
-- mocks/: the stand-ins for the ticket store, the issue tracker, the code host, the workspace and the browser.
pub mod Tickets
pub mod Jira
pub mod Github
pub mod Workspace
pub mod Browser

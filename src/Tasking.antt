-- ===== src/Tasking.antt =====
-- The tasking package: the private transport to the task owner, workspaces, artifacts, session
-- albums and the task service.
pub mod Exec
pub mod Owner
pub mod Workspaces
pub mod Artifacts
pub mod Trace
pub mod PiResponse
pub mod TaskProgress
pub mod TaskView
pub mod Service
pub mod Albums
pub mod ImageNames
pub mod Images

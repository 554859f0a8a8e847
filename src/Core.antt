-- ===== src/Core.antt =====
-- internal/core: the services of the CRM.
pub mod Automation
pub mod Audit
pub mod Deal
pub mod Invite
pub mod Todo
pub mod Notification

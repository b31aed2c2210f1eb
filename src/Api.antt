-- ===== src/Api.antt =====
-- internal/api: the HTTP handlers.
pub mod Accounts
pub mod Access
pub mod Attachments
pub mod Payload
pub mod Members
pub mod Deploys
pub mod Settings
pub mod Databases
pub mod Slug
pub mod Resources
pub mod Webhook
pub mod Reports
pub mod Responses
pub mod Logs
pub mod Router
pub mod Bodies
pub mod Routes
pub mod Calls
pub mod Github

-- ===== src/Tests.antt =====
-- Each theorem at a concrete input.
pub mod World
pub mod Pipeline
pub mod Reports
pub mod Handlers
pub mod Names
pub mod Cluster
pub mod Accounts
pub mod Client
pub mod Github
pub mod Build

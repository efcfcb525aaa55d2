-- ===== src/Databases.antt =====
-- The endpoints on databases: api/src/handlers/databases.rs. The tasks that they spawn are calls of
-- their own, which may run at any time after the request.
pub mod Addresses
pub mod Resources
pub mod Provisioning
pub mod Create
pub mod Lifecycle
pub mod Names
pub mod Users
pub mod Credentials
pub mod Accounts
pub mod Bundles
pub mod BundleTasks
pub mod Backups
pub mod Clones
pub mod Quiet
pub mod Tasks
pub mod Outcomes
pub mod Acted
pub mod Actions
pub mod Removal
pub mod Inserts
pub mod Quota
pub mod Pairs
pub mod BundleQuota

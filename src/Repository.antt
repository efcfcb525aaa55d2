-- ===== src/Repository.antt =====
-- The SQL statements of api/src/repository, as operations on the tables of the state. The database
-- answers every statement; a statement fails where it breaks a constraint of api/migrations.
pub mod Networks
pub mod Peerings
pub mod Billing
pub mod Databases
pub mod Accounts
pub mod Schedules
pub mod Users
pub mod Alerts
pub mod Invitations
pub mod Servers

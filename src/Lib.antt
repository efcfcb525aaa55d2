-- ===== src/Lib.antt =====
-- DBSaaS: an API that sells databases which run in Docker containers. This library models its core,
-- the Rust program under api/src, and proves what its parts promise.
--
-- The program keeps its data in PostgreSQL, a pool of host ports in memory, and the containers in one
-- or more Docker daemons. An HTTP request is checked, changes tables, calls Docker, and may spawn a
-- task that goes on after the reply. The model has one state for all of this (Platform.State: the
-- tables, the port pool, the events that were sent, and a `world` of any type for everything outside)
-- and one effect for a call (Platform.M: a result, and the state afterwards, which keeps what was
-- written before an error). A spawned task is a call of its own, which may run at any later time.
--
-- Files and code:
--   Prelude, Text            names of the libraries, integers that wrap, lists as SQL reads them, texts
--   Models, Config, Errors   api/src/models, api/src/config.rs, api/src/error.rs
--   Platform                 api/src/lib.rs (AppState) and the services outside the program; its
--                            children Rules and Returns reason about calls that end in some state and
--                            about calls that returned
--   Ports                    api/src/utils/port_pool.rs
--   Crypto                   api/src/utils/crypto.rs (encryption at rest)
--   Subdomain, Traefik       api/src/utils/subdomain.rs, api/src/services/traefik.rs (SNI mode)
--   Repository               api/src/repository: Networks and Peerings (private_network_repo.rs),
--                            Databases and Accounts (database_repo.rs), Schedules (backup schedules,
--                            favorites), Users, Invitations, Alerts, Servers with Servers.Admin
--                            (docker_server_repo.rs; proofs in Servers.Placement, Servers.Removal),
--                            Billing (billing_repo.rs); a statement fails where it breaks a
--                            constraint of api/migrations
--   Provisioner              api/src/services/provisioner.rs: networks, Firewall (scripts of nft, whose
--                            commands and text are in Firewall.Commands), Host (scripts on the
--                            host, the wait for a healthy container, whose proof is in Rounds),
--                            Containers, Sql (statements on users, whose reading is in
--                            Sql.Statements), Accounts (users in a container), Backups
--   Networks                 api/src/handlers/private_networks.rs: Handlers, Peering, Rules; proofs in
--                            DockerCalls, Isolation and Refusals
--   Databases                api/src/handlers/databases.rs: Addresses, Resources, Provisioning, Create,
--                            Lifecycle, Users, Bundles and BundleTasks, Backups, Clones; proofs in
--                            Quiet, Tasks, Inserts, Quota, Outcomes, Acted, Actions, Removal,
--                            Credentials, Names, Accounts, Pairs, BundleQuota
--   Backups                  api/src/services/backup.rs; proofs in Retention
--   Net                      api/src/middleware/rate_limit.rs and the addresses of
--                            api/src/services/alert.rs; proofs in Blocks
--   Auth                     api/src/middleware/auth.rs, admin.rs and maintenance.rs, with the endpoints
--                            in Auth.Handlers (api/src/handlers/auth.rs); proofs in Current,
--                            Quiet, Registration
--   Alerts                   api/src/services/alert.rs, with the endpoints in Alerts.Handlers
--                            (api/src/handlers/alerts.rs); proofs in Safety
--   Admin                    api/src/handlers/admin.rs, with Deletions, Routing and Servers
--                            (api/src/handlers/docker_servers.rs); proofs in Refused, Invited,
--                            Addresses
--   Billing                  api/src/services/billing.rs; proofs in Usage, Lines and
--                            Invoices
--   Tests                    concrete inputs for the theorems
--
-- How the code is read. A UUID, a time (microseconds) and an f64 (its bits) are numbers; an i32 is an
-- integer, and the sums of an invoice wrap around. Docker, the clock, the file system, certificates,
-- random numbers, the ciphers, base64, Unicode tables and the arithmetic of f64 are fields of
-- Platform.Services, Crypto.Primitives, Billing.Floats, Auth.Tokens, Alerts.Outside,
-- Admin.Servers.Daemon and Provisioner.Backups.Archives, parameters of every theorem, which may
-- answer anything, an error included. PostgreSQL answers every statement; an insert draws its UUID and
-- its time from the world. The rows of a query that PostgreSQL may give in any order come in the order
-- of the table. The text of a validation error is not that of the validator crate.
--
-- Bounds and fuel. The only loop without a bound in the source is the wait for a healthy container: it
-- has one round for each second of its timeout and one more, while a round sleeps for two seconds, so
-- the clock passes the deadline before the rounds run out; where they do run out, the model reports the
-- deadline as the source does. All other loops are over lists.
--
-- Not modelled: migrations of databases from uploads, the statistics and lists of the administrator,
-- the monthly run over all users and Stripe, the audit log, metrics, the start of the server, and the
-- user interfaces (web/, admin/). The user of a request after the middleware is a parameter of the
-- endpoints.
pub mod Prelude
pub mod Ports
pub mod Models
pub mod Errors
pub mod Crypto
pub mod Platform
pub mod Text
pub mod Repository
pub mod Provisioner
pub mod Networks
pub mod Billing
pub mod Config
pub mod Subdomain
pub mod Traefik
pub mod Databases
pub mod Net
pub mod Alerts
pub mod Auth
pub mod Admin
pub mod Backups
pub mod Tests

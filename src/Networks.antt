-- ===== src/Networks.antt =====
-- Private networks, their peerings and the firewall rules of a peering:
-- api/src/handlers/private_networks.rs.
pub mod Handlers
pub mod Peering
pub mod Rules
pub mod DockerCalls
pub mod Isolation
pub mod Refusals

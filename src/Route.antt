-- ===== src/Route.antt =====
-- internal/route: what is planned for the hosts file and for Caddy, from the vault's data.
pub mod Sorting
pub mod Hosts
pub mod Caddy

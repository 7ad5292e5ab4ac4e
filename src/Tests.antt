-- ===== src/Tests.antt =====
-- Runs of the models on one small vault, and the theorems at concrete inputs.
mod Vault
mod Catalog
mod Files
mod Cache
mod Encrypted
mod Hosts
mod Pool
mod Restore
mod Runtime
mod Ssh
mod Logs

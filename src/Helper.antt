-- ===== src/Helper.antt =====
-- internal/helper: the privileged helper, which rewrites the managed block of the hosts file.
pub mod HostsFile
pub mod Disk
pub mod Transaction
pub mod Protocol

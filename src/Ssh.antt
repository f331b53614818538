-- ===== src/Ssh.antt =====
-- src/jepsen/control: the ssh remote, over libssh2 and the sockets of the system.
pub mod Library
pub mod Channel
pub mod Client
pub mod Remote
pub mod Construction
pub mod Protocol
pub mod Sessions
pub mod Channels
pub mod Lifetime
pub mod Notes
pub mod Output
pub mod Loops
pub mod Progress

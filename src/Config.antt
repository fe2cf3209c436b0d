-- ===== src/Config.antt =====
-- Configuration: config/.
pub mod Models
pub mod Address
pub mod Duration
pub mod Parser
pub mod Sockets

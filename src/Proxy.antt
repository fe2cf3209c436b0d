-- ===== src/Proxy.antt =====
-- Request handling: proxy/ and auth/.
pub mod Paths
pub mod Sites
pub mod Substitution
pub mod State
pub mod Headers
pub mod RequestId
pub mod AccessLog
pub mod ForwardAuth
pub mod Pipeline
pub mod Forward
pub mod Responses
pub mod Handler
pub mod Tls
mod Examples

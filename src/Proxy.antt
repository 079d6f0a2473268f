-- ===== src/Proxy.antt =====
-- internal/proxy: the reverse proxy.
pub mod Headers
pub mod Forward
pub mod Retry
pub mod Engine
pub mod Builder
pub mod Gateway
pub mod Tunnel
pub mod Copier

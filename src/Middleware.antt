-- ===== src/Middleware.antt =====
-- internal/middleware: what stands between the server and the gateway.
pub mod Gzip
pub mod Logging
pub mod RateLimit
pub mod Recorder
pub mod Wrapping

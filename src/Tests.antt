-- ===== src/Tests.antt =====
-- Runs of the model on small data, and the theorems at inputs that meet their hypotheses.
mod Breaker
mod Balancers
mod Requests
mod Data
mod Configs
mod Compression
mod Clients
mod Racing
mod Reporting
mod Plugins
mod Files
mod Serving
mod Sharing

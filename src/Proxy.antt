-- ===== src/Proxy.antt =====
-- src/proxy: what the pipeline does to headers, requests, responses and bodies.
pub mod Headers
pub mod Patch
pub mod Actions
pub mod Body
mod Tests
pub mod Pipeline
pub mod Upstream

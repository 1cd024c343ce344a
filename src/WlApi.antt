-- ===== src/WlApi.antt =====
-- internal/wlapi: the simulated Workload API.
pub mod Config
pub mod TrustDomain
pub mod Workload

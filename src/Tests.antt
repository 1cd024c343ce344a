-- ===== src/Tests.antt =====
-- The properties at concrete inputs.
mod Fixtures
mod Libraries
mod Authorities
mod Inspection
mod Services
mod Serving
mod Clients
mod Inspectors

-- ===== src/X509Inspect.antt =====
-- internal/x509inspect: certificate chains and trees, the X.509-SVID check, certificate summaries.
pub mod Terminal
pub mod Links
pub mod Chain
pub mod Tree
pub mod Certificate
pub mod Svid
pub mod Summary
pub mod Inspector

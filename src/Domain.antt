-- ===== src/Domain.antt =====
-- internal/domain: the types and pure rules that the other components share.
pub mod Decimal
pub mod Types
pub mod Idempotency
pub mod Sizing
pub mod Status
pub mod Proxy

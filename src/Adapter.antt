-- ===== src/Adapter.antt =====
-- The package internal/plugin/adapter: what stands between the resources and the Terraform Plugin Framework.
pub mod Values
pub mod Marshalling
pub mod Shape
pub mod Normalize
pub mod Normalized
pub mod Written
pub mod Data
pub mod Store
pub mod Open
pub mod DataShape
pub mod SetShape
pub mod Decoded
mod Tests
pub mod Failure
pub mod Retry
pub mod Resource

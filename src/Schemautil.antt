-- ===== src/Schemautil.antt =====
-- internal/schemautil: what the resources of services share.
pub mod StaticIps
pub mod Wait
pub mod Databases
mod Tests
pub mod PlanChecks
pub mod DiskSpace
pub mod ServiceUser
pub mod ServiceResource

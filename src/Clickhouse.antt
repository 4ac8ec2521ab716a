-- ===== src/Clickhouse.antt =====
-- internal/sdkprovider/service/clickhouse: identifiers, statements, the system tables and the grant
-- and role resources.
pub mod Escape
pub mod Statement
pub mod Response
pub mod Sql
pub mod GrantResource
mod Tests

-- ===== src/Policy.antt =====
-- internal/policy: the authorization engine. The children define the code file by file, and prove
-- its properties in modules below those.
pub mod Schema
pub mod Selector
pub mod Scope
pub mod Roles
pub mod Rule
pub mod Compile
pub mod Runtime
pub mod Explain
mod Tests

-- ===== src/Api.antt =====
-- internal/api: the token scopes of the API.
pub mod TokenScope
mod Tests

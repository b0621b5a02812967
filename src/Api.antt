-- ===== src/Api.antt =====
-- The HTTP application (api/app.py): its configuration, who may call it, and its routes. A handler
-- takes the state and gives the new one; an HTTP error is an `http_exception`.
pub mod Runtime
pub mod Auth
pub mod Ingest
pub mod AgentRoutes
pub mod TaskRoutes
pub mod Claims
pub mod CaseRoutes
pub mod Health
pub mod HuntRoutes
pub mod Safety

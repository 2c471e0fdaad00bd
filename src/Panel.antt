-- ===== src/Panel.antt =====
-- The web panel of the server: server/internal/web.
pub mod Auth

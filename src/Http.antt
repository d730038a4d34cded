-- ===== src/Http.antt =====
-- internal/httpapi: the cursors of pages.
pub mod Cursor

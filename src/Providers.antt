-- ===== src/Providers.antt =====
-- core/providers: the reader of server-sent events.
pub mod Sse

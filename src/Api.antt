-- ===== src/Api.antt =====
-- tc-server/internal/adapters/api/handler.go: how the server answers over HTTP.
pub mod Answers

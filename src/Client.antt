-- ===== src/Client.antt =====
-- internal/client/server.go: the line protocol that clients speak.
pub mod Text
pub mod Server
pub mod Requests
pub mod Answers

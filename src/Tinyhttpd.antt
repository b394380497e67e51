-- ===== src/Tinyhttpd.antt =====
-- network-programming/http/tinyhttpd/httpd.c: a small HTTP server, one connection at a time.
pub mod Pages
pub mod Cat
pub mod Headers
pub mod Parse
pub mod Server
mod Tests

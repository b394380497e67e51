-- ===== src/Epollhttpd.antt =====
-- network-programming/http/epollhttpd: the HTTP server on epoll.
pub mod Url
pub mod Mime
pub mod Server
mod Tests

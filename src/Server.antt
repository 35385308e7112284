-- ===== src/Server.antt =====
-- The demo web server: the Go files at the repository's root.
pub mod State
pub mod Errors
pub mod Openfga
pub mod Database
pub mod Videos
pub mod Pages
pub mod Fibonacci
pub mod Handlers
pub mod Spans
pub mod Responses
pub mod Rejections
pub mod Serving
pub mod Catalog
pub mod Concurrent
pub mod Startup
pub mod Process
pub mod Tests
pub mod Relate
pub mod Parts
pub mod Authorization

-- ===== src/Server.antt =====
-- The HTTP client of core/httpServer.go, the goroutines of core/waitgroup.go, the middleware of
-- common/ginporm, and the routes of handler/ and control/.
pub mod Config
pub mod Goroutines
pub mod Http
pub mod Metrics
pub mod Names
pub mod Routes
pub mod Sizes

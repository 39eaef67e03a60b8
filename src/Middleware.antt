-- ===== src/Middleware.antt =====
-- The layers of src/middleware.
pub mod UrlCanonicalization
pub mod BufferBody
pub mod SecurityHeaders

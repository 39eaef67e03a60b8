-- ===== src/Registry.antt =====
-- src/registry/mod.rs and src/registry/pages.rs: the pages, and the resolution of a URL path.
pub mod Pages
pub mod Resolve
pub mod Laws
pub mod Home
pub mod Urls
mod Debug
mod Tests
pub use Pages.*
pub use Resolve.*

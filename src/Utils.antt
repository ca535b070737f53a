-- ===== src/Utils.antt =====
-- include/lumen/utils.
pub mod Texts
pub mod Config
mod JsonTests
mod Tests

-- ===== src/Models.antt =====
-- include/lumen/models.
pub mod ImageNet
pub mod Transform
pub mod Labels
mod Tests

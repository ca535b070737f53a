-- ===== src/Core.antt =====
-- include/lumen/core: what travels between the server, the queues and the workers.
pub mod Types

-- ===== src/Config.antt =====
-- The configuration of the services (src/common/config/env.validation.ts of each).
pub mod Env
pub mod Reads

-- ===== src/Rules.antt =====
-- internal/rules
pub mod Schema
pub mod SnakeCase
pub mod Description
pub mod Destructive
pub mod OpenProperty
pub mod Network
pub mod FilePath
pub mod Required
pub mod StaticVsLive
pub mod Collision
pub mod Pii
pub mod Secrets

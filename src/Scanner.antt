-- ===== src/Scanner.antt =====
-- internal/scanner: the intakes.
pub mod Files
pub mod Python
pub mod TypeScript
pub mod Json
pub mod Dispatch
pub mod Declarations
pub mod Lines
pub mod Offsets
pub mod Walks
pub mod Roots
pub mod Documents

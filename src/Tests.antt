-- ===== src/Tests.antt =====
-- Each theorem at an example.
mod Rules
mod Breaker
mod Command
mod Utilities
mod Writers
mod Files
mod Intakes
mod Memory
mod Signing
mod Teardown
mod Groups
mod Bus
mod Attempts

-- ===== src/Cooldown.antt =====
-- internal/runtime/discord/router/cooldown: how long a user waits between two uses of a command.
pub mod Policy
pub mod Key
pub mod Tracker
mod Tests

-- ===== src/Playback.antt =====
-- internal/playback: the queue and session of the player.
pub mod Types
pub mod Context
pub mod Rand
pub mod Shuffle
pub mod Position
pub mod Navigation
pub mod Upcoming
pub mod Iterator
pub mod Items
pub mod Window
pub mod Previous
pub mod Platform
pub mod Normalize
pub mod Session
mod Tests
mod SessionTests

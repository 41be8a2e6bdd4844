-- ===== src/Process.antt =====
-- main.cpp: the process as a whole, where the viewers, the web, the adapter clients and the threads meet.
pub mod Jobs
pub mod Rooms
pub mod Sound
pub mod Starting
pub mod Watching
pub mod Stuck
pub mod Leaving
pub mod Fixture
pub mod Entry
mod Tests

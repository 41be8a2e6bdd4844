-- ===== src/Service.antt =====
-- AdapterService.cpp and main.cpp: the service around the play manager and the adapter server.
pub mod Lifecycle
pub mod Stopping
pub mod Console
pub mod Admin
pub mod Http
pub mod Routes
pub mod Changes
pub mod Keeping
pub mod Cameras
pub mod PushCheck
pub mod Login
pub mod Reading
pub mod Handler
pub mod Viewing
pub mod Timely
pub mod Grounds
pub mod Fixture
mod Tests
mod CallTests

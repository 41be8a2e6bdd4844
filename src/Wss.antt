-- ===== src/Wss.antt =====
-- atb_wss: the websocket front end, its rooms and the play manager.
pub mod Room
pub mod Server
pub mod PlayMngr
pub mod Requests
pub mod Expiry
pub mod Rooms
pub mod Events
pub mod Queue
pub mod Keeping
pub mod Invariant
pub mod Safety
pub mod Service
pub mod Members
pub mod Viewers
pub mod Collision
pub mod Delivery
pub mod Lifecycle
mod Tests

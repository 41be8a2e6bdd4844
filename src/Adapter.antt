-- ===== src/Adapter.antt =====
-- atb_adapter: the server that the adapter clients (CMS clients) connect to.
pub mod Clock
pub mod Token
pub mod Sending
pub mod Listing
pub mod Wire
pub mod Client
pub mod Server
pub mod Session
pub mod Refresh
pub mod Reading
pub mod Unique
pub mod Waiting
pub mod Schedule
pub mod Playing
pub mod Control
pub mod Play
pub mod Stopped
pub mod Starts
pub mod Machine
pub mod Events
pub mod Lasting
pub mod PushUrl
pub mod Overlap
pub mod Unused
mod Faults
mod Tests

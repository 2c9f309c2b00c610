-- ===== src/Endpoint.antt =====
-- The handlers of `src/app/endpoint/`.
pub mod Helpers
pub mod CreateEvent
pub mod ReadState
pub mod Rooms
pub mod ListEvents

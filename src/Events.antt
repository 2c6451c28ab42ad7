-- ===== src/Events.antt =====
-- Events of a club: app/repositories/event.py, app/services/event_service.py and the routes that
-- change an event (app/routers/events.py).
pub mod Repository
pub mod Service
pub mod Routes
pub mod Inversion
pub mod Attendance
pub mod Changes
pub mod Creation
pub mod Responses
pub mod Lists
pub mod Joins
pub mod Listing
pub mod Bulk
pub mod Rooms
mod Tests

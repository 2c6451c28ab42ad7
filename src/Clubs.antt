-- ===== src/Clubs.antt =====
-- Clubs, their members, bans and join requests: app/services/club_service.py and the club router.
pub mod Common
pub mod Inversion
pub mod Members
pub mod Joining
pub mod Lifecycle
pub mod Steps
pub mod Removal
pub mod Ownership
pub mod Effects
mod Tests
pub mod Requests

-- ===== src/BookVote.antt =====
-- The votes on a club's next book: app/repositories/book_vote.py and app/services/book_vote_service.py.
pub mod Repository
pub mod Service
pub mod Inversion
pub mod Winner
pub mod Votes
pub mod Voting
mod Tests

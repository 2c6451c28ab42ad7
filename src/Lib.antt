-- ===== src/Lib.antt =====
-- A model of the book club backend (Python, FastAPI, SQLAlchemy): clubs and their members, votes on
-- the next book, events, quizzes, the chat, its live connections and its flood limiter.
--
-- The program serves HTTP requests, each with a database session of its own, and chat WebSockets,
-- which share two objects of the process: the connection manager and the flood limiter. The services
-- of a club change its rows, and close the chat sockets of a user who is no member any more.
--
--   Models, Database: app/models. A row is a record, a table a list in insertion order, and
--   `integrity` the keys, unique constraints and foreign keys that PostgreSQL checks at a commit.
--   Session: app/database.py (`get_db`) and app/exceptions.py. A service is a function from a session
--   to a result and a session: the stored tables (`saved`), the tables worked on (`work`), the time of
--   the request and the connection manager. `commit`, `rollback` and the end of the request are
--   explicit, so that what an error leaves behind is part of the model. Session/Readers and
--   Session/Holds are the rules by which the proofs walk along a service.
--   Access: the checks of app/dependencies.py. ClubRepository: app/repositories/club.py.
--   Clubs: app/services/club_service.py and the routes that change a club (app/routers/clubs.py);
--   Clubs/Common has the shared checks, Clubs/Members leaving, removal, bans and roles, Clubs/Joining
--   the join requests, Clubs/Lifecycle creation, pause, cancellation and deletion. Clubs/Requests has
--   the requests as data and histories of them. Clubs/Ownership, Clubs/Removal and Clubs/Effects hold proofs.
--   Members: the lists of app/routers/members.py, with app/repositories/pagination.py.
--   BookVote: app/repositories/book_vote.py and app/services/book_vote_service.py.
--   Events: app/repositories/event.py, app/services/event_service.py, app/routers/events.py;
--   Events/Creation is create_event_service of app/services/club_service.py with the room of an event,
--   Events/Responses and Events/Lists are the responses and lists of events.
--   Quizzes: app/repositories/quiz.py, app/services/quiz_service.py, app/routers/quizzes.py.
--   Chat: app/repositories/chat.py, app/services/chat_service.py; Chat/Handshake and Chat/Socket are
--   the WebSocket of a room (app/routers/chat.py), from the frame that authenticates it to its end.
--   Connections: app/services/chat_connections.py. ChatFlood: app/services/chat_flood.py.
--   CspReports: app/services/csp_report.py, app/models/csp_report.py and record_csp_report of
--   app/routers/analytics.py (budget and counters, with a database that may raise).
--   Limiter: app/limiter.py (the fallback while the storage fails).
--   Support: app/routers/support.py. Randomizer: app/routers/randomizer.py.
--   Cleanup: app/tasks/cleanup.py.
--   Auth: app/routers/auth.py and app/services/auth_service.py; Auth/Users has signing up and in,
--   Auth/Flows the OAuth flow and its codes, Auth/Redis the interface of their store.
--   Database/Unique: what unique constraints give. Text: what the services use of `str`. Prelude:
--   shared names and lemmas.
--
-- Every loop of the code runs over a list and is structural recursion here: there is no fuel. Numbers
-- are unbounded, as Python's are; ids (UUIDs) are numbers, and those that `uuid.uuid4` draws are
-- arguments. Times are microseconds, in the limiters milliseconds, in the report budget
-- seconds.
--
-- A history serves one request after the other. The code makes this so for leaving, removals, bans,
-- roles and deletions by a lock on the club's row (`SELECT … FOR UPDATE`); requests that interleave
-- inside their transactions are not modelled, and neither is the isolation level of PostgreSQL.
-- Not modelled: token checks (the signed-in user is an argument), messages for people, length limits
-- of columns, HTTP and WebSocket input and output, the frontend's cache, and the parts of the program
-- that the list of modules does not name: the decoding of access tokens, statistics, uploads and the
-- clients of external services.
mod Prelude
pub mod Connections
pub mod ChatFlood
pub mod Text
pub mod Models
pub mod Database
pub mod Session
pub mod ClubRepository
pub mod Access
pub mod Clubs
pub mod BookVote
pub mod Events
pub mod Quizzes
pub mod Chat
pub mod CspReports
pub mod Limiter
pub mod Support
pub mod Members
pub mod Randomizer
pub mod Auth
pub mod Cleanup

-- ===== src/Models.antt =====
-- app/models: the rows of the tables that the modelled services read or write. Ids are numbers, texts
-- are lists of code points, and times are microseconds since a fixed instant. A row that a unique
-- constraint names is identified by that constraint's columns, so its surrogate id is left out, and
-- so are columns that no modelled code reads or writes.
mod ClubRows
mod EventRows
mod ChatRows
mod QuizRows
mod VoteRows
mod SupportRows
pub use ClubRows.*
pub use EventRows.*
pub use ChatRows.*
pub use QuizRows.*
pub use VoteRows.*
pub use SupportRows.*

-- ===== src/Runtime.antt =====
-- What the program reaches outside itself, and how its functions run.
--
-- `Trace` is the list of calls made so far, the newest first, each with its outcome. `Env` answers
-- the calls: the database client, the cache, the queues, Slack, the clock and the identifiers. An
-- answer may depend on all that was called before, and nothing else is assumed of it.
-- `Go S A` is a Go function that returns `(A, error)` and may write to the object of type S that it
-- holds a pointer to, and to the workflow cache of the process. Logging is left out.
mod Events
mod Monad
pub mod Keeps
pub mod Steps
pub mod Returns
pub use Events.*
unfoldable pub use Monad.*

-- ===== src/Repository.antt =====
-- internal/repository/dynamodb: the calls of the DynamoDB client that the repositories share. The
-- children are the repositories, one for each table, and the tokens of their pages.
pub mod Tokens
pub mod Runs
pub mod ActionLogs
pub mod Jobs
pub mod Signals
pub mod Workflows
mod Calls
pub mod Frames
unfoldable pub use Calls.{marshal_map, put_item, get_item, query, scan, unmarshal_all, int32}
pub use Calls.{PaginationResult}

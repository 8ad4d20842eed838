-- ===== src/Session.antt =====
-- The database session that every service takes as `db`.
mod Core
mod Rows
pub use Core.{
  World, Fault, database_error, object_deleted, Result, ok, raised, fault, Action, pure, raise,
  gets, or_deleted, continue, ◌>>=◌, ◌>>◌, raise_if, modify, rollback, handle, try_except, send,
}
unfoldable pub use Core.{commit}
unfoldable pub use Rows.{read_publication, read_attempt, set_publication, set_attempt}

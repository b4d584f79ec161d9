-- ===== src/Orm.antt =====
-- The session over the database: state, exceptions, and SQLAlchemy's `AsyncSession` as a
-- parameter. A call of a service is an `Action`: it takes the session's state and gives a result
-- or an exception with the state that it leaves.
mod Effect
mod Interface
mod Laws
pub mod Relates
pub mod Returns
pub mod Ends
unfoldable pub use Effect.*
pub use Interface.*
pub use Laws.*

-- ===== src/Shared.antt =====
-- internal/domain/shared: the domain's errors (errors.go) and identifiers (id.go), with the instants
-- of the standard library's `time` that every part passes on.
pub mod Errors
pub mod Id
unfoldable pub use Errors.*
unfoldable pub use Id.*

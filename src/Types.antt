-- ===== src/Types.antt =====
-- src/exo/shared/types: the values that the parts of the program exchange. Identifiers (`Id`, a
-- subclass of `str`) are only compared, so they are numbers. Fields that no modelled code reads are
-- left out.
mod Models
mod Runners
mod Tasks
mod Profiling
pub use Models.*
pub use Runners.*
pub use Tasks.*
pub use Profiling.*

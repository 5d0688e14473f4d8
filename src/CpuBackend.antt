-- ===== src/CpuBackend.antt =====
-- src/backends/cpu.rs and src/backend.rs: the sweep of a nonce range by threads that take chunks of
-- it from a shared counter. An interleaving is a schedule: at each entry one thread makes the next
-- of its atomic steps, and the entry says whether it reads `stop` or `new_job` as set there.
mod Shared
pub mod Order
pub mod Sound
pub mod Thread
pub mod Kept
pub mod Complete
pub mod Joins
unfoldable pub use Shared.*

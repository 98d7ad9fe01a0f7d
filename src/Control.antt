-- ===== src/Control.antt =====
-- The control plane of go-watch-file/internal/api: agents pull tasks, and report on them.
pub mod Types
pub mod Db
pub mod Agents
pub mod Registry
pub mod Tasks
pub mod Sort
pub mod Sorted
pub mod Order
pub mod Timeouts
pub mod Complete
pub mod Machine
pub mod Writes
pub mod Serve
pub mod Keys
pub mod Expiry
pub mod Pull
pub mod Life
pub mod Sound
pub mod Numbers
pub mod Requests
pub mod Tests
pub mod Dispatch

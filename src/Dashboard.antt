-- ===== src/Dashboard.antt =====
-- go-watch-file/internal/state/state.go: what the dashboard shows of files, uploads and the queue.
pub mod Switches
pub mod Below
pub mod Climb
pub mod Records
pub mod Marks
pub mod Tally
pub mod Tests

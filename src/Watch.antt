-- ===== src/Watch.antt =====
-- go-watch-file/internal/watcher/file_watcher.go: the directories that are watched, and the files that are handed on
-- when nothing has been written to them for a while.
pub mod Files
pub mod Dirs
pub mod Events
pub mod Frame
pub mod Settled
pub mod Armed
pub mod Reached
pub mod Delivery
pub mod Tests

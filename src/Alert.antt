-- ===== src/Alert.antt =====
-- go-watch-file/internal/alert: the rules on log lines and their suppression (Engine), the record of
-- the decisions (State), and the reading of a log file as it grows (Tailer).
pub mod Types
pub mod Texts
pub mod Engine
pub mod Run
pub mod Stamps
pub mod Spacing
pub mod Escalation
pub mod Times
pub mod State
pub mod Tailer
pub mod Lines
pub mod Polls
pub mod Growth
pub mod Tests

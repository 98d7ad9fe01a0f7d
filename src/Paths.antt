-- ===== src/Paths.antt =====
-- go-watch-file/internal/match and internal/pathutil: suffixes, excluded directories and object keys.
pub mod Split
pub mod Matcher
pub mod Extensions
pub mod Exclude
pub mod Subtree
pub mod Deepest
pub mod Objects
pub mod Tests

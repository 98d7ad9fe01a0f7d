-- ===== src/Service.antt =====
-- go-watch-file/internal/service/file_service.go: the uploads of the service, and what it notes of them.
pub mod Retry
pub mod Attempts
pub mod Uploads
pub mod Enqueue
pub mod Manual
pub mod Reasons
pub mod Tests

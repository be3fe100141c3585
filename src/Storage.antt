-- ===== src/Storage.antt =====
-- storage/: page ids and pages (page.h), files and pages on disk (disk_manager), and the buffer
-- pool (buffer_pool_manager).
pub mod Page
pub mod Disk
pub mod Files
pub mod Buffer

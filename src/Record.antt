-- ===== src/Record.antt =====
-- record/: the bitmap of a page's slots (bitmap.h), the layout of table files (rm_manager.h), the
-- operations on records (rm_file_handle) and the scan of a table (rm_scan).
pub mod Bitmap
pub mod Layout
pub mod File
pub mod Scan

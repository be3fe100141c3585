-- ===== src/Index.antt =====
-- index/: the nodes of the B+ tree and the header of its file.
pub mod Order
pub mod Compare
pub mod Node
pub mod FileHeader

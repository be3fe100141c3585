-- ===== src/Lib.antt =====
-- RMDB (rmdb/src), a relational database: a buffer pool over the disk, table files of records,
-- and above them indexes, executors, a planner and transactions. This library models the storage
-- and the record layer, from the replacer to the scan of a table, the nodes of the indexes, the
-- catalog, the analysis of conditions, the planner's treatment of tables and conditions, and four
-- executors.
--
-- The parts, each with its file and what it models (paths under rmdb/src):
--   Common: lists, integers and association lists over the native numbers, errors and the
--     monad of calls that can throw (errors.h). A throw keeps the changes made before it. Results
--     holds the calls that change nothing, Bytes texts and the bytes of an int.
--   Replacer: the abstract class of replacer/replacer.h as a record of operations and laws.
--   Replacer/Lru: LRUReplacer (replacer/lru_replacer.h, .cpp). A list node is its address and its
--     frame, and the hash holds addresses, as the iterators of the source.
--   Storage/Page, Storage/Disk, Storage/Files: PageId and Page (storage/page.h), and DiskManager
--     (storage/disk_manager.h, .cpp) in two parts: pages, and the tables of open files.
--   Storage/Buffer: BufferPoolManager (storage/buffer_pool_manager.h, .cpp), over any replacer that
--     keeps the laws of the interface and over the type of a page's content. Its children hold
--     the invariant (Invariant), what a victim frame and a load do to it (Replace, Load), and one
--     file for the proofs of each operation; Returns says when `fetch_page` returns.
--   Record/Bitmap: Bitmap (record/bitmap.h) on bytes.
--   Record/Layout: the sizes that RmManager::create_file computes (record/rm_manager.h) and the
--     offsets of RmPageHandle (record/rm_file_handle.h).
--   Record/File: RmFileHandle (record/rm_file_handle.h, .cpp): get_record, insert_record,
--     delete_record, update_record, is_record, and the list of pages with free slots.
--   Record/Scan: RmScan (record/rm_scan.h, .cpp).
--   Index/Compare: ix_compare (index/ix_index_handle.h) on the bytes of keys. Its child Ordered fills
--     with it the interface of orders of Index/Order.
--   Index/Node: IxNodeHandle, one node of the B+ tree (index/ix_index_handle.h, .cpp), with its keys
--     and record ids as arrays, over any order of the interface.
--   Index/FileHeader: IxFileHdr (index/ix_defs.h), the header of an index file, and its bytes.
--   Execution/Executor, Execution/Join: AbstractExecutor (execution/executor_abstract.h) as a record
--     of operations that can throw, and NestedLoopJoinExecutor
--     (execution/executor_nestedloop_join.h) over the executors of its two sides and the test that
--     eval_conds makes. SeqScan/AsExecutor and `join_executor` fill the record.
--   Execution/SeqScan, Execution/Projection, Execution/Aggregate: SeqScanExecutor over a table file
--     and its iterator (execution/executor_seq_scan.h), ProjectionExecutor
--     (execution/executor_projection.h), and of AggExecutor (execution/executor_agg.h) the groups and
--     the state of their aggregates.
--   Catalog, Catalog/Words: DbMeta, TabMeta, IndexMeta and ColMeta (system/sm_meta.h), their look-up,
--     and their operators << and >>, with blanks and newlines as the source writes them.
--     Catalog/Stream is what they use of the streams of the standard library.
--   Query, Query/Eval: Value and Condition (common/common.h), and eval_cond of AbstractExecutor
--     (execution/executor_abstract.h) on the bytes of a record.
--   Analyze: check_column and check_clause (analyze/analyze.cpp).
--   Planner: make_one_rel (optimizer/planner.cpp) with its children Plans, the plans as trees of
--     scans and joins (optimizer/plan.h), Choice, get_index_cols, and Spread, pop_conds, push_conds
--     and pop_scan.
--
-- How they interact: the buffer pool takes a replacer and the disk as parts of its state. The
-- table file sees its pages through the buffer pool: its model has the pages of the file, counts
-- the pins, and asks `grants` whether the pool has a frame for the next fetch, and `refusals` how
-- a call ends that gets none: with the null pointer, or with a throw that leaves any bytes in the
-- pages that the pool shows. The analysis
-- completes conditions by the catalog, the planner spreads them over scans and joins, and a
-- scan evaluates them on the bytes of each record of its table. The arithmetic of floats is a
-- record of operations that these parts take as a parameter.
--
-- Bounds: a frame, a file descriptor and a page count are natural numbers; a page or slot number
-- of a record id and the links between pages are integers, -1 included. No loop needs fuel that
-- its code does not bound: Bitmap.next_loop runs for the slots from the first to max_n,
-- Scan.next_loop for the pages from the current one to num_pages, and Node.bound_loop for at most
-- num_key rounds, since each shortens the range that is left. The join's Join.read_right and
-- Join.advance have `rounds` rounds, which is enough with one for each tuple of a side, and
-- SeqScan.seek has one for each slot of the file. The loops of catalog, analysis, planner and
-- aggregation run over lists. The overflow of an int that counts is not modelled: it needs
-- files of more than 2^31 pages or records.
--
-- Not modelled: the trees that the nodes form, the executors of index scan, insert, update, delete
-- and sort, the having conditions and output of an aggregation, the analysis and plans of other
-- statements than conditions over tables, subqueries, the system manager, transactions and the
-- log; the parser, which is generated; sockets and printing. Of the record layer, insert_record
-- at a given record id is missing. Every operation of the buffer pool and of the replacer holds
-- its latch throughout, so each is one step here.
pub mod Common
pub mod Replacer
pub mod Storage
pub mod Record
pub mod Index
pub mod Execution
pub mod Catalog
pub mod Query
pub mod Planner
pub mod Analyze

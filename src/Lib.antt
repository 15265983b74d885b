-- ===== src/Lib.antt =====
-- A model of Hoit-F2FS, the file system F2FS with an NVM device beside the SSD, and its proofs.
--
-- The program. An inode finds the node block of a page by a path of node offsets (node.c). Each
-- inode caches runs of pages that lie on consecutive blocks (extent_cache.c). A segment of the SSD
-- can be mapped to a segment of the NVM device, on which its blocks are read and written then: a
-- table with an entry for each segment of both devices keeps the mapping (nvm.h, nvm.c). Reads are
-- counted for each SSD segment. When the NVM device is almost full, the cleaner (gc_nvm.c) chooses
-- the mapped segments with the fewest reads, and writes them back; it also chooses the SSD segments
-- with the most reads to be moved to the NVM device. Node numbers that are free are kept in a list
-- from which new nodes take theirs (node.c). Inodes that need attention at a checkpoint, among them
-- the orphans, stand in lists of inode numbers (checkpoint.c). Six logs write to the main area of the
-- SSD, each in a segment of its own (segment.c, segment.h). Maps tell which segments are free, which
-- of their blocks are valid or kept for the last checkpoint, and which segments are dirty or
-- prefree. A log that is full takes a free segment, with an NVM segment if nvm_alloc says so
-- (nvm.c), or reuses the best dirty one that the search for victims (gc.c) finds; a checkpoint turns
-- prefree segments into free ones and takes their mapping away. The blocks of a directory form the
-- levels of a hash table, and a bitmap in each block tells which slots are taken (dir.c). A mount
-- checks the super block and the checkpoint first (super.c). Each new block or node is counted
-- against the device and its reserves (f2fs.h). An inode's attributes stand in the inode and in a
-- block of their own (xattr.c); its ACLs are two of them (acl.c).
--
-- The files.
--   Base           tests on numbers, 32-bit arithmetic, C arrays and how many elements pass a test,
--                  lists, and the interface of the kernel's bitmap searches (Base/BitSearch).
--   Node           node.c and node.h: get_node_path, f2fs_start_bidx_of_node, IS_DNODE.
--   Nid            node.c: the free node numbers: f2fs_alloc_nid, f2fs_alloc_nid_done,
--                  f2fs_alloc_nid_failed, add_free_nid, remove_free_nid.
--   Ino            checkpoint.c: the lists of inode numbers, among them the orphans.
--   Nvm/Entry      nvm.h: the entries of the mapping table and their flags.
--   Nvm/Segments   nvm.c: nvm_allocate_segment, create_mapping, unset_mapping; gc_nvm.c: set_double.
--   Nvm/Heap       nvm.c: the heaps of the cleaner. The two kinds are one definition.
--   Nvm/Lfu        nvm.c: the read counters of four levels, nvm_move_lfu_count, calc_count.
--   Nvm/TopK       nvm.c: the scan that get_max_k and get_min_k share.
--   Nvm/Cleaner    nvm.c: get_max_k and get_min_k with their conditions.
--   Segment/Free   segment.h: the maps of free segments and sections.
--   Segment/Pick   segment.c: get_new_segment.
--   Segment/Sit    segment.h and segment.c: the valid blocks of a segment, update_sit_entry.
--   Segment/Dirty  segment.c: the lists of dirty segments, f2fs_invalidate_blocks.
--   Segment/Prefree  segment.h and segment.c: __set_test_and_free with the NVM mapping,
--                  set_prefree_as_free_segments, f2fs_clear_prefree_segments.
--   Segment/Search  segment.c: __find_rev_next_bit and __find_rev_next_zero_bit, by words.
--   Victim         gc.c: get_victim_by_default, its policies and costs.
--   Curseg         segment.c: new_curseg and change_curseg, on top of all of these.
--   Curseg/Types   segment.c: __get_segment_type, f2fs_io_type_to_rw_hint; nvm.c: nvm_alloc.
--   Dir            dir.c: the blocks of the hash levels, f2fs_room_for_filename.
--   Dir/Dentry     dir.c: f2fs_update_dentry, f2fs_find_target_dentry, f2fs_delete_entry in a block.
--   Dir/Empty      dir.c and inline.c: f2fs_empty_dir, f2fs_empty_inline_dir.
--   Super          super.c: the checks of the super block (sanity_check_raw_super) and of the
--                  checkpoint (f2fs_sanity_check_ckpt), max_file_blocks.
--   Counts         f2fs.h: the counts of valid blocks and nodes with their reserves; the store to
--                  reserved_blocks (sysfs.c), limit_reserve_root (super.c).
--   Acl            acl.c and acl.h: ACLs as bytes on disk.
--   Xattr          xattr.c and xattr.h: the extended attributes of an inode.
--   Copies         node.h and segment.h: the two copies of each NAT and SIT block.
--   Extent         extent_cache.c and f2fs.h: extents and their tests.
--   Extent/Update  extent_cache.c: f2fs_update_extent_tree_range.
--   Extent/Lookup  extent_cache.c: the lookups.
--
-- How C is read. A struct is a record of the fields that the modelled code uses, a C array a
-- function from its indices, a pointer into a structure a position in it. Arithmetic on unsigned int
-- and u32 wraps where a `32` stands at the operator. Counters and positions that the code keeps far
-- below their limits are plain numbers: the read counters, the bytes and indices of names and the
-- sizes of ACLs among them. Spin locks and the locks of the trees make each function
-- that takes one a single step. A loop is recursion on the list that it walks, or on a number of
-- rounds: the path of a node has at most four steps, a sift through a heap as many rounds as the
-- heap has nodes, a scan as many as there are segments, the search for a free segment two, the
-- second from the start, that for a victim two more than twice as many as there are segments, since
-- it turns once at the end, the loop over the prefree segments two more than there are segments (see
-- Segment/Prefree/Ends), the skip to whole sections in it as many as there are segments, the search
-- of a bitmap by words one for each word and one more, and the search for a place in a directory
-- block, for room or for a name, one more than the block has slots. The theorems on them state what
-- the code ends with, so that the rounds are shown to be enough.
--
-- f2fs_bug_on has two meanings, by CONFIG_F2FS_CHECK_FS. Where the model ends at it, the result says
-- so: get_new_segment (see Segment/Pick/Takes), f2fs_alloc_nid (see Nid/HandOut), and
-- dec_valid_block_count and dec_valid_node_count, where it is a condition on the caller (see
-- Counts/Back for blocks that were granted before). Elsewhere the model goes on, as the code does
-- without that option: in Segment/Sit with the flag that is set, which the count of blocks depends
-- on, in Segment/Dirty, Curseg/Types, Ino and Nid with the flag left out. The steps of Ino and Nid
-- have the tested conditions as their own.
--
-- Not modelled: what only submits or waits for I/O, the page cache, locks and threads as such, the
-- kernel's bitmap searches (an interface with their documented behaviour) and its balanced trees
-- (only the order of the nodes matters), the entries of the segments on disk and the discards, the
-- hashes of names and the search of a directory over its blocks, the statistics, mount options and proc files.
pub mod Acl
pub mod Base
pub mod Copies
pub mod Counts
pub mod Curseg
pub mod Dir
pub mod Extent
pub mod Ino
pub mod Nid
pub mod Node
pub mod Nvm
pub mod Segment
pub mod Super
pub mod Victim
pub mod Xattr

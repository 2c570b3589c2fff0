-- ===== src/Lib.antt =====
-- The prefetch tools: what they compute and why it is right.
--
-- The program records which pages of which files a boot or an application reads (the kernel module
-- work/prefetch-module/prefetch.c), writes them as trace files, and has tools that work on the traces:
-- prefetch-initscripts/prefetch-process-trace.cpp merges traces into one sorted list of page ranges,
-- and prefetch-initscripts/e2moveblocks/ext3_layout_optimize.cpp moves the blocks of the files of such
-- a list next to each other on an ext3 filesystem. ext3remapper/e2remapblocks.c is an earlier tool for the
-- same purpose, which moves listed extents into free ones.
--
-- Parts and files:
--   Common            names of the libraries passed on; Bool tests, lists over native numbers, words.
--   Trace             prefetch_types.h: the record of a trace. Trace.Bytes is its layout in memory.
--   Trace.Posix       open, read, lseek, close, fwrite and ferror as an interface; Trace.Posix.Memory
--                     is files in memory that meet it.
--   Trace.File        prefetch_lib.cpp: open_trace_file, fill_trace_file_header, close_trace_file,
--                     read_prefetch_record. Opening and Reading have their theorems.
--   ProcessTrace      prefetch-process-trace.cpp: trace_cmp, trace_record_cmp, ranges_overlap,
--                     trace_merge. Compare, Overlap, Merge and Separated have their theorems;
--                     Canonical says when two lists of ranges hold the same pages.
--   ProcessTrace.SortSum, .ReadData, .UnitTests, .Main
--                     trace_file_data_sorted_sum; trace_file_read_data and output_trace_file_data;
--                     the --unittests run; main with its options.
--   PrintTrace        prefetch-print-trace.cpp: the text of a record, and main. Laws compares it with
--                     trace_file_read_data; ReadBack reads a line back.
--   MoveBlocks.Blocks ext3_layout_optimize.cpp: sizes, and the areas of block numbers in a file.
--   MoveBlocks.Estimate
--                     estimate_blocks_for_range in its four stages, and the self-test of it. Walk
--                     counts the same blocks one by one; Plain compares the two.
--   MoveBlocks.FreeSpace
--                     find_contiguous_free_space.
--   MoveBlocks.Layout process_layout_list; Layout.Text is fgets, strtok and atol as it uses them. Line
--                     and Laws have its theorems.
--   MoveBlocks.Ext2   libext2fs, the I/O channel and malloc as an interface, with the laws of the block
--                     bitmap; Ext2.Memory is a filesystem in memory that meets it.
--   MoveBlocks.Relocate
--                     the state of the filesystem, block buffers and relocate_raw_block; Pointers has
--                     relocate_block_in_inode and relocate_block_in_indirect_block, File has
--                     relocate_block and relocate_blocks. RawBlock, Counting, Accounting, Steps,
--                     FileSteps, DirectData, DirectFile and NoAbort have their theorems.
--   MoveBlocks.Opening, .Main
--                     open_filesystem and main of e2moveblocks; Main.Laws is about whole runs.
--   MoveBlocks.BlockMap
--                     e2blockmap.cpp; Text has the lines that it prints, Laws what they are.
--   PrefetchModule.TraceBuffer
--                     prefetch.c: the trace buffer, prefetch_trace_add, clear_trace, the markers and
--                     get_prefetch_trace_fragment. Log says which records the buffer holds, Steps has
--                     the critical sections in any order, Fragment the fragments between markers.
--   PrefetchModule.FileCache
--                     walk_file_cache and prefetch_page_release_hook. Ranges is what they should
--                     record, Walk the loop over the lookups, Recorded and Complete its results.
--   PrefetchModule.Prefetching
--                     prefetch_do_prefetch and prefetch_start_prefetch. Balance is about what is
--                     acquired and released, Readaheads and Sequence about what is read ahead.
--   PrefetchModule.Tracing
--                     walk_pages over the inodes that PrefetchModule.Inodes comes to, and the functions
--                     that start, continue and stop a trace. Walks and Runs are about one run, WholeTrace about
--                     a trace from its start to its stop.
--   PrefetchModule.Inodes
--                     ivec_push, ivec_fill, ivec_inode: the walk over the kernel's lists of inodes.
--                     Filling and Laws say what it visits.
--   PrefetchModule.Boot
--                     prefetch_start_boot_phase, prefetch_stop_boot_tracing and the saving of the
--                     fragment of a phase. Phases says what is saved.
--   PrefetchModule.PrefetchFile
--                     do_prefetch_from_file. Reading is about its loop over kernel_read.
--   PrefetchModule.ProcFile
--                     prefetch_proc_write. Commands has each command by its text, Refused is about the
--                     writes that fail.
--   RemapBlocks.Splay ext3remapper/e2remapblocks.c: extent_splay and extent_insert. Order, Split, Ascending
--                     and Insert say what they do to the extents of the tree.
--   RemapBlocks.Load  load_extents with insert_new_extent and the table of inodes; where realloc moves that
--                     table, to which the hash table goes on pointing, the model stops as at an exit.
--                     Cover, Rounds and Line are about one line, Lines about all.
--   RemapBlocks.FreeExtents
--                     find_free_blocks and find_remapped_offset. Runs is about the scan, Taking and Choice
--                     about what is taken, Lookup about the search; Sorting is a sort that meets the
--                     contract of qsort.
--   RemapBlocks.Copy  copy_inode_blocks. Targets says where an offset goes, Pieces and Inode what is
--                     copied, Beyond what is not.
--   RemapBlocks.Traverse
--                     cmp_ext_offset_ptr and remap_block; Pointers is about the pointers that it gives.
--   RemapBlocks.Bitmap
--                     update_bitmap; Groups is about its loop over the groups.
--   RemapBlocks.Run   parse_options, sort_inodes_extents, copy_and_remap_extents and main. Sequence,
--                     Pointers and Chosen are about the moves of all inodes, Whole about main.
--   the modules called Tests
--                     runs, and the theorems at concrete inputs.
--
-- State and errors. A function that changes an object takes it and returns it changed; an error return
-- is none, false or a constructor of its own (failed); an assertion that fails is none or aborted, and
-- nothing runs after it. In the kernel module a function
-- is one critical section of its lock, and a run is a list of critical sections in the order in which
-- they happen; the kernel's functions are parameters. The block buffers are modelled by how many are allocated, since each is
-- filled before it is used. bg_free_blocks_count is a function of the group, since the group numbers
-- come from libext2fs.
--
-- Words. The tools are built for i686: unsigned int, unsigned long and blk_t have 32 bits, u16 fields
-- have 16, and their sums wrap. e2_blkcnt_t and __u64 have 64 bits, which the sums made in them do not
-- reach. Loops are by recursion on the list or on the number of rounds left; no loop runs on fuel,
-- except those over the records of a trace file, whose length the tools do not know: each round reads
-- one record, and more rounds than the file has records are enough; and the loop of walk_file_cache,
-- for which more rounds than the file has cached pages are enough; the walk over
-- the inodes, for which more rounds than inodes are listed are enough; and the loop of
-- do_prefetch_from_file, which reads at least one byte in a round. In RemapBlocks two rounds for each
-- block of a line and one more are enough to load it; a round of the scan passes a block, and a round of
-- the binary search an extent; a round of the copying writes a block, and a round of update_bitmap counts
-- one. The device of the moves is what the copying leaves; the pointers that libext2fs writes are a list
-- beside it.
--
-- Not modelled: messages on stdout and stderr, getopt_long (its options come one by one), a strdup that
-- fails, the process-wide record counter as a bounded int, the kernel module's reading of its
-- proc file, its tracing of one application and its merging of fragments, the scripts, e2block2file.c and preloadblocks.c of
-- ext3remapper, and the older copies of the tools in work/prefetch-tools. std::sort and qsort are
-- parameters with their contracts.
pub mod Common
pub mod Trace
pub mod ProcessTrace
pub mod MoveBlocks
pub mod PrintTrace
pub mod PrefetchModule
pub mod RemapBlocks

-- ===== src/Lib.antt =====
-- A model of the Boehm-Demers-Weiser conservative garbage collector, of its C code.
--
-- The heap is cut into blocks of HBLKSIZE bytes (struct hblk). A block is either free, and then it
-- is on one of the lists of allchblk.c, or it holds objects of one size, and then its header has a
-- mark bit for each granule. A fresh block becomes a free list of objects in new_hblk.c. After a
-- collection reclaim.c sweeps each block: what is not marked goes on the free list of its size. The
-- black lists of blacklst.c note the blocks that false pointers hit, so that the block allocator
-- avoids them.
--
-- Base       truth values, numbers and lists that the rest shares.
-- Memory     memory by address, and chains through the link word of a free object.
-- Sweep      reclaim.c: GC_clear_block, GC_reclaim_clear, GC_reclaim_uninit,
--            GC_disclaim_and_reclaim; in Sweep/Generic GC_reclaim_generic, and of mark.c
--            GC_set_hdr_marks and GC_clear_hdr_marks. The static and the passed state (list, count,
--            memory) is the record Sweep.
-- NewHblk    new_hblk.c: GC_build_fl and its cases GC_build_fl_clear2, GC_build_fl_clear4,
--            GC_build_fl2 and GC_build_fl4.
-- BlackList  blacklst.c: GC_add_to_black_list_normal, GC_add_to_black_list_stack,
--            GC_is_black_listed, GC_promote_black_lists, GC_unpromote_black_lists,
--            GC_number_stack_black_listed, total_stack_black_listed. The static variables are the
--            record BlackLists.
-- FreeLists  allchblk.c: GC_hblk_fl_from_blocks, GC_enough_large_bytes_left,
--            GC_remove_from_fl_at, GC_remove_from_fl, GC_add_to_fl, GC_get_first_part,
--            GC_split_block. GC_hblkfreelist, GC_free_bytes and the headers are the record Lists.
-- ObjMap     obj_map.c: GC_register_displacement_inner, GC_initialize_offsets, GC_add_map_entry. The
--            tables are the record Offsets and the type Maps.
-- Headers    headers.c and include/private/gc_hdrs.h: GC_header_cache_miss, GC_install_counts,
--            GC_remove_counts. The index of two levels is the table Index.
-- Mark       mark.c and include/private/gc_pmark.h: GC_push_obj with GC_signal_mark_stack_overflow,
--            GC_push_contents_hdr, PUSH_CONTENTS, GC_mark_from, and of finalize.c the loop of
--            GC_mark_fo. What it reads is the record Heap, what it changes the record Marker. Marking
--            uses Headers for the header of a candidate pointer, ObjMap for its displacement and
--            BlackList for false pointers.
-- Typed      typd_mlc.c: GC_make_descriptor, without the set-up at its first call. Its descriptors
--            are read by Mark. GC_add_ext_descriptor is an argument.
-- Specific   specific.c and include/private/specific.h: GC_key_create_inner, GC_setspecific,
--            GC_remove_specific_after_fork, GC_slow_getspecific, GC_getspecific. A key with its
--            entries is the record Tsd; Specific/Race lets other threads write while a thread reads.
-- SizeMap    misc.c and malloc.c: GC_init_size_map and GC_extend_size_map, on the table
--            GC_size_map.
-- Policy     alloc.c: min_bytes_allocd, GC_adj_bytes_allocd, GC_should_collect. The static variables
--            are the record Policy.
-- Cord       cord/cordbscs.c: the type CORD, CORD_cat, CORD_cat_char_star; in Cord/Balance
--            CORD_init_min_len, CORD_init_forest, CORD_add_forest, CORD_concat_forest,
--            CORD_balance_insert, CORD_balance; in Cord/Substr CORD_from_fn, CORD_substr_closure,
--            CORD_substr_checked, CORD_substr; in Cord/Iter CORD_iter5, CORD_iter, CORD_riter4,
--            CORD_riter; in Cord/Position the positions of include/gc/cord_pos.h: CORD_set_pos,
--            CORD_pos_fetch, CORD_next, CORD_prev and the loop CORD_FOR; in Cord/Extra, of cord/cordxtra.c,
--            CORD_fill_buf, CORD_to_char_star, CORD_from_char_star, CORD_to_const_char_star,
--            CORD_fetch and CORD_chr. A C string is its list of characters, a function node the function.
--
-- The configuration is the usual one of a 64-bit system: words of 8 bytes, blocks of 4096 bytes,
-- granules of 16 bytes, one mark bit for each granule, kept as bits (not bytes), 2 ^ 18 entries
-- in a page hash table; without parallel marking, unmapping, incremental collection, assertions
-- and the printing of black listed pointers, and with ENABLE_DISCLAIM; only Policy keeps the
-- tests for incremental collection. Numbers are natural numbers. Counters of bytes wrap at 2 ^
-- 64; addresses do not, as no block lies across the end of memory. Prefetches do nothing. The
-- client's notifier for unmarked objects is a parameter that says for each object whether to
-- keep it; that it writes to no object of the block is assumed. The mark procedures of clients
-- are a parameter, too. The cache of headers is left out, as it keeps only what the lookup
-- gives.
--
-- Loops run on fuel. A sweep gets one unit for each byte of a block and one more, and each round
-- passes at least one object; GC_build_fl gets one for each byte; GC_is_black_listed one for
-- each block of the range and one more; the loops over a forest of cords get one for each of its
-- MAX_DEPTH places and one more; CORD_FOR one for each character and one more; the loops of
-- Specific one for each entry on a chain and one more; GC_extend_size_map one for each element
-- of its table and one more; GC_mark_from one for each part of 127 words of an object that is on
-- the stack or not marked, and one for each such object. `none` means that the fuel was not
-- enough, or, in FreeLists, a read through a null header, in Cord/Position an access outside of
-- the held characters or ABORT, or in ObjMap a call of ABORT, or in SizeMap an access behind the
-- table; the theorems show when there is a result.
--
-- Not modelled: the choice of the blocks to sweep, the search for a free block and coalescing
-- (GC_allochblk, GC_freehblk), the marking of roots and of a heap after an overflow
-- (GC_mark_some), the phases of a collection and the growth of the heap, finalization, the
-- allocation of typed objects and the table of extended descriptors. They build on the parts
-- above and change several of their states at once, for which the model has no common record.
-- What is bound to an operating system, to the threads of a platform or to a debugger is left
-- out, as it is calls of that system.
pub mod Base
pub mod Memory
pub mod Sweep
pub mod NewHblk
pub mod BlackList
pub mod FreeLists
pub mod ObjMap
pub mod Cord
pub mod Headers
pub mod Mark
pub mod Typed
pub mod Specific
pub mod SizeMap
pub mod Policy

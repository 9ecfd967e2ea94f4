-- ===== src/Lib.antt =====
-- Models of the runtime system of SML# (smlsharp/src/runtime, in C), which the completions
-- generator is built on.
--
-- Parts, and the files that model them:
--   Splay and below  smlsharp/src/runtime/splay.c, the self-adjusting search tree that holds the
--     callbacks and the finalizers. Splay.antt has `splay`, `assemble`, `join` and the searching and
--     changing operations on the shape of a tree; Splay/Walk.antt the walks; Splay/Memory.antt the
--     layout of nodes and the chunks that they are cut from; Splay/Store.antt the operations of
--     `struct sml_tree` as a whole. Splay/Sequence.antt is their specification on sorted lists.
--   Object and below  object.h and object.c: the format of heap objects (Object.antt), `sml_obj_equal`
--     (Object/Equal.antt), `sml_obj_enum_ptr` (Object/Enum.antt) and `sml_copyary` (Object/Copy.antt).
--   Top and below  top.c: the tables of safe points, how `sml_gcroot` fills them, and how
--     `sml_lookup_frametable` finds the frame layout of a return address.
--   Primitives and below  prim.c: the comparison of bytes and the formatting of integers.
--   Bitptr and below  smlsharp.h: the bit pointers of the collector, with what its macros do to words.
--   Segment and below  heap_concurrent.c: `compute_segment_layout` (Segment/Layout.antt), and the
--     search for a free block in the bitmaps of a segment (Segment/Scan.antt, Segment/Find.antt).
--   Allocator and below  heap_concurrent.c: the size classes of `sml_alloc`, and how an allocation
--     pointer takes the free blocks of its segment.
--   Reclaim and below  heap_concurrent.c: `copy_collect_bitmap`, which makes the bitmaps of a segment
--     from the marks; its loop runs once for each word of the lowest bitmap.
--   Subheap and below  heap_concurrent.c: `free_count` and `reclaim_subheap`.
--   Pool and below  heap_concurrent.c: `init_segment`, `get_segment_from_pool`, and `set_alloc_ptr`
--     with its fellows.
--   Mark and below  heap_concurrent.c: `visit`, `push`, `trace` and `is_alive`; `trace` goes over the
--     pointers with `sml_obj_enum_ptr` of Object/Enum.antt. Mark/Barrier.antt has the write barrier.
--   Control and below  control.c: the handshakes of the collector with the workers. Control.antt has
--     state words and what the loop of `change_phase` and the ends of the actions do,
--     Control/Steps.antt the steps that workers take in any order, each one an atomic operation.
--   Finalize and below  finalize.c: the set of finalizers, a search tree of Splay/Store.antt, with
--     `is_alive` of Mark.antt for `sml_heap_check_alive`.
--   Exception and below  exn.c: `search_lpad`, which finds the landing pad of an address in the table
--     of call sites, with `read_uleb128` and `read_udata4` (Exception/Numbers.antt), and `sml_personality`
--     (Exception/Personality.antt).
--   Base  helpers; it models no code.
--
-- A loop that is not structural runs on fuel, and its result is an option that is `none` where the
-- fuel runs out: `sml_obj_equal` gets fuel for the depth of its recursion, `binary_search` one
-- turn for each entry and one more, `sml_tree_each` and `sml_tree_reject` get two turns for each
-- node and one more, `sml_tree_rebuild` three and one more, `trace` one turn for each object that
-- is not marked or is on the stack, `search_lpad` one turn for each byte of its table and one
-- more, and the results below say that this is enough. Memory exhaustion (`xmalloc`) stops the
-- program and is not modelled; a failed `assert` is `none` where a definition says so, and so is a
-- `sml_fatal`. `read_uleb128` gets ten turns, since C leaves the shift of an eleventh byte
-- undefined.
--
-- Not modelled: the stacks of threads and the lists of them (control.c), and what
-- heap_concurrent.c does with large objects after marking and with a thread that ends; how writes
-- and the tracing interleave; the other collectors (heap_*.c); callbacks, the unwinding of
-- exceptions and the start of the program; output, debugging and calls of the C library and of the
-- library of multiple precision arithmetic, whose comparison is a parameter. Outside
-- Control/Steps.antt, atomic operations are taken one after the other, and memory orders are taken
-- to be sequential everywhere.
pub mod Base
pub mod Splay
pub mod Allocator
pub mod Bitptr
pub mod Control
pub mod Exception
pub mod Finalize
pub mod Mark
pub mod Object
pub mod Pool
pub mod Primitives
pub mod Reclaim
pub mod Segment
pub mod Subheap
pub mod Top

-- ===== src/Finalize/Tests.antt =====
-- The finalizers of two objects (smlsharp/src/runtime/finalize.c), of which one is alive.
use smlsharp_completions_gen.Base.{ℕ, ◌≡◌, ◌==◌, true, false, refl, arith, some, [], ◌∷◌}
use smlsharp_completions_gen.Object.{
  obj_type, type_of_bits, obj_size, num_words, obj_total_size, bitmaps_size, obj_flag_skip,
}
use smlsharp_completions_gen.Segment.{segment_addr, object_index}
use smlsharp_completions_gen.Mark.{Heap, Marks, is_alive, is_alive_block}
use smlsharp_completions_gen.Splay.{leaf, node}
use smlsharp_completions_gen.Splay.Sequence
use smlsharp_completions_gen.Splay.Inorder.{inorder}
use smlsharp_completions_gen.Splay.Walk.{size}
use smlsharp_completions_gen.Splay.Store.{SmlTree}
use smlsharp_completions_gen.Splay.Store.Sound.{IsSound}
use smlsharp_completions_gen.Finalize.{
  Finalizer, voidp_cmp, finalizer_order, sml_set_finalizer, sml_run_finalizer,
}
use smlsharp_completions_gen.Finalize.Sound.{
  select, calls_of, living, dying, item_of, sml_run_finalizer-IsSound, sml_set_finalizer-IsSound,
}

abbrev first : ℕ
first = 52768

abbrev second : ℕ
second = 52800

-- Objects of 16 bytes without pointers, in blocks of 32 bytes; the first one is marked.
abbrev heap : Heap
heap = record {
  object = λ p. record { header = 16; word = λ i. 0; bitmap = λ i. 0 };
  layout = λ s. record {
    blocksize_log2 = 5;
    blocksize_bytes = 32;
    bitmap_offset1 = 80;
    bitmap_offset2 = 84;
    bitmap_sentinel0 = 0;
    bitmap_sentinel1 = 0;
    bitmap_length = 52;
    bitmap0_length = 48;
    zerofill_limit = 132;
    stack_offset = 136;
    block_offset = 20000;
    num_blocks = 350;
    block_limit = 31200;
  };
  used = λ s i. true;
  snapshot = λ s. 0;
  malloc_bit = λ s. true;
}

abbrev marks : Marks
marks = record { collect = λ s i. i == 0; malloc_collect = λ s. false; next = λ p. 0 }

one_kept : living heap marks (item_of first 7) ≡ true
unfolding is_alive is_alive_block obj_flag_skip obj_total_size obj_type type_of_bits obj_size
    bitmaps_size num_words object_index segment_addr
one_kept = refl

one_called : dying heap marks (item_of second 9) ≡ true
unfolding is_alive is_alive_block obj_flag_skip obj_total_size obj_type type_of_bits obj_size
    bitmaps_size num_words object_index segment_addr
one_called = refl

abbrev finalizers : SmlTree Finalizer
finalizers = record {
  root = node (node leaf (item_of first 7) leaf) (item_of second 9) leaf;
  chunk = 96 ∷ [];
  freelist = 0;
  alloc_size = 48;
}

finalizers-IsSound : IsSound finalizers
unfolding voidp_cmp size
finalizers-IsSound = record {
  ordered = ((refl, tt), (tt, tt));
  accounted = refl;
  fits = omega arith;
}

sml_run_finalizer-IsSound_example :
    (t' : SmlTree Finalizer) × (sml_run_finalizer heap marks [] finalizers
      ≡ some (calls_of (select (dying heap marks) (inorder finalizers.root)), t'))
    × IsSound t'
    × (inorder t'.root ≡ select (living heap marks) (inorder finalizers.root))
sml_run_finalizer-IsSound_example =
    sml_run_finalizer-IsSound heap marks [] finalizers finalizers-IsSound

sml_set_finalizer-IsSound_example :
    (t' : SmlTree Finalizer) × (sml_set_finalizer 123 first 0 finalizers ≡ some t')
    × IsSound t'
    × (inorder t'.root ≡ Sequence.insert (item_of first 0) (inorder finalizers.root))
sml_set_finalizer-IsSound_example =
    sml_set_finalizer-IsSound 123 first 0 finalizers finalizers-IsSound

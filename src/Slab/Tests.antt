-- ===== src/Slab/Tests.antt =====
-- A slab of objects of 1024 bytes at the start of the heap, and the orders of `kmalloc`.
use destin_x.Prelude.{◌≡◌, refl, false, some, [], arith}
use destin_x.Buddy.{heap_start}
use destin_x.Slab.{Slabs, empty_cache, create_at, order_loop, find_cache, init_slab, init_slab_loop}
use destin_x.Slab.Objects.{Created, create_at_lem}

abbrev heap : Slabs
heap = record {
  slab = λ a. record {
    free_list = 0;
    free_count = 0;
    total_count = 0;
    parent_cache = 0;
    prev = 0;
    next = 0;
  };
  word = λ a. 0;
  cache = empty_cache;
  buddy = record {
    prev = λ a. 0;
    next = λ a. 0;
    metadata = λ i. record { order = 0; is_free = false; is_slab = false };
    free_areas = λ i. 0;
    metadata_size = 0;
    current_heap_end = 0;
    pmm = record { bitmap = λ b. 0; total_pages = 0 };
    maps = [];
  };
}

create_at_lem_example : Created heap_start 6 heap (create_at 4097 heap_start 6 heap)
create_at_lem_example =
    create_at_lem 4097 heap_start 6 heap refl (omega arith) (omega arith) (omega arith)
      (omega arith)

three_pages : order_loop 20 4096 0 12288 ≡ some 2
unfolding order_loop
three_pages = refl

cache_of_100 : find_cache 8 0 100 (init_slab heap) ≡ 3
unfolding find_cache init_slab init_slab_loop
cache_of_100 = refl

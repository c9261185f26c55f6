-- ===== src/Buddy/Tests.antt =====
-- The allocator on the heap that `init_buddy` leaves: one free block of 16 MiB.
use destin_x.Prelude.{
  ℕ, ◌+◌, ◌/◌, ◌≡◌, ◌⊎◌, refl, sym, ◌∙◌, inl, inr, true, false, Option, none, some, List, [], ◌∷◌,
  arith, ◌==◌, if◌then◌else◌, update, Bool-cases, ◌∈◌,
}
use destin_x.Links.{Chain}
use destin_x.Buddy.{
  Buddy, PageMetadata, heap_start, index_of, buddy_alloc, buddy_list_add, buddy_list_remove,
  buddy_of, block_size,
}
use destin_x.Buddy
use destin_x.Buddy.FreeLists.{IsBlock, IsHeap, Owned}
use destin_x.Buddy.Remove.{buddy_list_remove-IsHeap}
use destin_x.Buddy.Alloc.{Allocated, buddy_alloc-Allocated}

abbrev initial : Buddy
initial = record {
  prev = λ a. 0;
  next = λ a. 0;
  metadata = λ i. record { order = if i == 0 then 12 else 0; is_free = i == 0; is_slab = false };
  free_areas = λ o. if o == 12 then heap_start else 0;
  metadata_size = 4096;
  current_heap_end = heap_start + 0x1000000;
  pmm = record { bitmap = λ b. 0; total_pages = 0 };
  maps = [];
}

abbrev lists : ℕ → List ℕ
lists o = if o == 12 then heap_start ∷ [] else []

whole : IsBlock heap_start 12
whole = record {
  order_le = omega arith;
  aligned = record { quotient = heap_start / 0x1000000; multiple = refl };
  above = omega arith;
  below = omega arith;
}

only : (o a : ℕ) → a ∈ lists o → (o ≡ 12) × (a ≡ heap_start)
only o a i = ground arith

initial-IsHeap : IsHeap initial lists
initial-IsHeap = record {
  heads = λ o. ground arith;
  chains = λ o. chain o (Bool-cases (o == 12));
  blocks = λ o a i. let (eo, ea) = only o a i in rw (eo, ea) whole;
  apart = λ o p a b x i j h h'.
      let (eo, ea) = only o a i in let (ep, eb) = only p b j in (eo ∙ sym ep, ea ∙ sym eb);
  marked = λ o a i. let (eo, ea) = only o a i in rw (eo, ea) (refl, refl);
}
  where
    chain :
        (o : ℕ)
        → ((o == 12) ≡ true) ⊎ ((o == 12) ≡ false)
        → Chain initial.next initial.prev 0 (lists o)
    chain o (inl e) = rw e ((omega arith), refl, refl, refl, tt)
    chain o (inr e) = rw e tt

-- A request for one page halves the block twelve times.
first_page : Option ℕ
first_page = elim (buddy_alloc 1 0 initial) [ none ↦ none | some (a, s) ↦ some (s.free_areas 11) ]

first_page_run : first_page ≡ some (heap_start + 0x800000)
unfolding first_page buddy_alloc Buddy.search_orders Buddy.take_block Buddy.take_at Buddy.split
    buddy_list_add buddy_list_remove
first_page_run = refl

buddy_alloc-Allocated_example : Allocated initial lists 0 (buddy_alloc 1 0 initial)
buddy_alloc-Allocated_example =
    buddy_alloc-Allocated 0 0 12 initial-IsHeap (omega arith) (omega arith) (λ e. cc)

buddy_list_remove-IsHeap_example :
    IsHeap (buddy_list_remove heap_start 12 initial) (update lists 12 [])
    × Owned (update lists 12 []) heap_start 12
    × (((buddy_list_remove heap_start 12 initial).metadata (index_of heap_start)).is_free ≡ false)
buddy_list_remove-IsHeap_example = buddy_list_remove-IsHeap initial-IsHeap heap_start 12 [] [] refl

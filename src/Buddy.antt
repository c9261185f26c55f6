-- ===== src/Buddy.antt =====
-- The buddy allocator of the kernel heap, mm/buddy.c. A `free_block_t` is stored in the block it
-- describes; `metadata` has one entry for each page. An `int` page index is below 2^31 here, the
-- heap being smaller than 8 TiB.
pub mod Address
pub mod FreeLists
pub mod Remove
pub mod Alloc
mod Tests
use destin_x.Prelude.{
  ℕ, zero, suc, ◌+◌, ◌-◌, ◌*◌, ◌/◌, ◌%◌, ◌^◌, ◌≤◌, ◌<◌, ◌≡◌, ◌≢◌, ◌↔◌, ◌⊎◌, refl, sym, ap, ◌∙◌, inl,
  inr, Bool, true, false, not, ◌&&◌, ◌||◌, Option, none, some, List, [], ◌∷◌, ◌++◌, map, arith, ltb,
  leb, ◌==◌, if◌then◌else◌, update, add64, sub64, Bool-cases, Option-cases, ==_iff, ==_self, ltb→lt,
  lt→ltb, length, get_elem?, length-append, bit_and, bit_or, bit_xor, has, ◌∈◌, ◌∉◌, has-append,
}
use destin_x.Pmm
use destin_x.Pmm.{Pmm, page_size}

pub record PageMetadata : Type 0 where
  pub order : ℕ
  pub is_free : Bool
  pub is_slab : Bool

-- `maps` lists the calls `vmm_map_page(cr3, paddr, vaddr, PAGE_SIZE_4KB, PTE_WRITABLE)`, the last one first.
pub record Buddy : Type 0 where
  pub prev : ℕ → ℕ
  pub next : ℕ → ℕ
  pub metadata : ℕ → PageMetadata
  pub free_areas : ℕ → ℕ
  pub metadata_size : ℕ
  pub current_heap_end : ℕ
  pub pmm : Pmm
  pub maps : List (ℕ × ℕ)

abbrev pub max_orders : ℕ
max_orders = 12

abbrev pub start_pages : ℕ
start_pages = 4096

abbrev pub heap_start : ℕ
heap_start = 0xFFFFE00000000000

abbrev pub metadata_virt : ℕ
metadata_virt = 0xffffffff00000000

-- `sizeof(page_metadata_t)`: three bit fields in one byte.
abbrev pub metadata_entry_size : ℕ
metadata_entry_size = 1

-- `(1ULL << i) * PAGE_SIZE_4KB`
abbrev pub block_size : ℕ → ℕ
block_size i = 2 ^ i * page_size

abbrev pub index_of : ℕ → ℕ
index_of addr = sub64 addr heap_start / page_size

abbrev pub buddy_of : ℕ → ℕ → ℕ
buddy_of addr i = bit_xor addr (block_size i)

unfoldable pub buddy_list_remove : ℕ → ℕ → Buddy → Buddy
buddy_list_remove addr order s =
    let n = s.next addr in
    let v = s.prev addr in
    let s1 : Buddy =
      if v == 0
      then record s { free_areas = update s.free_areas order n }
      else record s { next = update s.next v n } in
    let s2 : Buddy = if n == 0 then s1 else record s1 { prev = update s1.prev n v } in
    record s2 {
      metadata =
          update s2.metadata (index_of addr)
            (record (s2.metadata (index_of addr)) { is_free = false });
    }

-- `order` is a bit field of four bits.
unfoldable pub buddy_list_add : ℕ → ℕ → Buddy → Buddy
buddy_list_add addr order s =
    let h = s.free_areas order in
    let s1 : Buddy = record s { prev = update s.prev addr 0; next = update s.next addr h } in
    let s2 : Buddy = if h == 0 then s1 else record s1 { prev = update s1.prev h addr } in
    record s2 {
      free_areas = update s2.free_areas order addr;
      metadata =
          update s2.metadata (index_of addr)
            (record { order = order % 16; is_free = true; is_slab = false });
    }

-- The halving loop: `rounds` is `i - order`.
unfoldable pub split : ℕ → ℕ → ℕ → Buddy → Buddy
split zero order block_addr s = s
split (suc rounds) order block_addr s =
    split rounds order block_addr
      (buddy_list_add (buddy_of block_addr (order + rounds)) (order + rounds) s)

-- What `buddy_alloc` does with the block at the head of list `i`.
unfoldable pub take_at : ℕ → ℕ → ℕ → Buddy → ℕ × Buddy
take_at order i block_addr s =
    let s1 = split (i - order) order block_addr (buddy_list_remove block_addr i s) in
    (
      block_addr,
      record s1 {
        metadata =
            update s1.metadata (index_of block_addr)
              (record { order = order % 16; is_free = false; is_slab = false });
      },
    )

unfoldable pub take_block : ℕ → ℕ → Buddy → ℕ × Buddy
take_block order i s = take_at order i (s.free_areas i) s

-- The search from order `i` on, with the orders that are left.
unfoldable pub search_orders : ℕ → ℕ → ℕ → Buddy → Option (ℕ × Buddy)
search_orders zero order i s = none
search_orders (suc rounds) order i s =
    let rest = search_orders rounds order (i + 1) s in
    if s.free_areas i == 0 then rest else some (take_block order i s)

-- `for (i = 0; i < pages; i++) vmm_map_page(read_cr3(), paddr + i * 4096, vaddr + i * 4096, ...)`
unfoldable pub map_pages : ℕ → ℕ → ℕ → ℕ → Buddy → Buddy
map_pages zero i paddr vaddr s = s
map_pages (suc rounds) i paddr vaddr s =
    map_pages rounds (i + 1) paddr vaddr
      (record s { maps = (add64 paddr (i * page_size), add64 vaddr (i * page_size)) ∷ s.maps })

-- The entries of the pages that are added to the heap.
unfoldable pub fresh_entries : ℕ → ℕ → Buddy → Buddy
fresh_entries zero i s = s
fresh_entries (suc rounds) i s = fresh_entries rounds (i + 1) (record s {
  metadata =
      update s.metadata (sub64 (add64 s.current_heap_end (i * page_size)) heap_start / page_size)
        (record { order = max_orders; is_free = false; is_slab = false });
})

abbrev pub metadata_pages : ℕ
metadata_pages = (start_pages * metadata_entry_size + page_size - 1) / page_size

-- The part of `buddy_alloc` that makes the heap larger; `none` means that `pmm_alloc_pages` ran out of fuel.
-- The results of `pmm_alloc_pages` are not tested, and `metadata_size` and `current_heap_end` grow as
-- they are written in the source.
unfoldable pub grow : Buddy → Option Buddy
grow s = elim (Pmm.alloc_pages metadata_pages s.pmm) [
  | none ↦ none
  | some (pages, pmm1) ↦
      let s1 =
        map_pages metadata_pages 0 pages (add64 metadata_virt s.metadata_size)
          (record s { pmm = pmm1 }) in
      let s2 : Buddy = record s1 {
        metadata_size = add64 s1.metadata_size (metadata_pages * page_size);
      } in
      elim (Pmm.alloc_pages start_pages s2.pmm) [
        | none ↦ none
        | some (more, pmm2) ↦
            let s3 = map_pages start_pages 0 more s2.current_heap_end (record s2 { pmm = pmm2 }) in
            let s4 =
              buddy_list_add s3.current_heap_end max_orders (fresh_entries start_pages 0 s3) in
            some (record s4 { current_heap_end = add64 s4.current_heap_end start_pages })
      ]
]

-- `buddy_alloc` calls itself after it has made the heap larger; `none` means that the fuel ran out.
unfoldable pub buddy_alloc : ℕ → ℕ → Buddy → Option (ℕ × Buddy)
buddy_alloc zero order s = none
buddy_alloc (suc fuel) order s = elim (search_orders (max_orders + 1 - order) order order s) [
  | some r ↦ some r
  | none ↦ elim (grow s) [ none ↦ none | some s' ↦ buddy_alloc fuel order s' ]
]

-- The merging loop from order `i` on, with the rounds left: the block to add and its order.
unfoldable pub merge : ℕ → ℕ → ℕ → Buddy → ℕ × ℕ × Buddy
merge zero i addr s = (addr, i, s)
merge (suc rounds) i addr s =
    let b = buddy_of addr i in
    let meta = s.metadata (index_of b) in
    let merged = merge rounds (i + 1) (if ltb b addr then b else addr) (buddy_list_remove b i s) in
    if meta.is_free && (meta.order == i) then merged else (addr, i, s)

unfoldable pub buddy_free : ℕ → Buddy → Buddy
buddy_free addr s =
    let i = (s.metadata (index_of addr)).order in
    let (block, order, s') = merge (max_orders - i) i addr s in buddy_list_add block order s'

unfoldable pub is_buddy_free : ℕ → ℕ → Buddy → Bool
is_buddy_free buddy_addr order s =
    let meta = s.metadata (index_of buddy_addr) in (meta.order == order) && meta.is_free

-- ===== src/Slab.antt =====
-- The slab allocator and `kmalloc`, mm/slab.c and mm/kmalloc.c. A slab stands at the start of its page, `word` is the
-- memory of the objects, which lie behind it; a free object holds the address of the next one. The
-- spinlock brackets `kmalloc` and `kfree`, which are one step.
pub mod Objects
mod Tests
use destin_x.Prelude.{
  ℕ, zero, suc, ◌+◌, ◌-◌, ◌*◌, ◌/◌, ◌%◌, ◌^◌, ◌≤◌, ◌<◌, ◌≡◌, ◌≢◌, ◌↔◌, ◌⊎◌, refl, sym, ap, ◌∙◌, inl,
  inr, Bool, true, false, not, ◌&&◌, ◌||◌, Option, none, some, List, [], ◌∷◌, ◌++◌, map, arith, ltb,
  leb, ◌==◌, if◌then◌else◌, update, add64, sub64, Bool-cases, Option-cases, ==_iff, ==_self, ltb→lt,
  lt→ltb, length, get_elem?, length-append, bit_and, bit_or, bit_xor, has, ◌∈◌, ◌∉◌, has-append,
}
use destin_x.Buddy.{Buddy, PageMetadata, heap_start, index_of, buddy_alloc, buddy_free}

-- `parent_cache` is the number of a cache, its place in `kernel_caches`.
pub record SlabHeader : Type 0 where
  pub free_list : ℕ
  pub free_count : ℕ
  pub total_count : ℕ
  pub parent_cache : ℕ
  pub prev : ℕ
  pub next : ℕ

pub record KmemCache : Type 0 where
  pub obj_size : ℕ
  pub slabs_partial : ℕ
  pub slabs_full : ℕ

pub record Slabs : Type 0 where
  pub slab : ℕ → SlabHeader
  pub word : ℕ → ℕ
  pub cache : ℕ → KmemCache
  pub buddy : Buddy

-- `slabs_partial` and `slabs_full` of cache `i`.
pub data Which : Type 0 where
  partial full : Which

abbrev pub head_of : Which → ℕ → Slabs → ℕ
head_of Which.partial i s = (s.cache i).slabs_partial
head_of Which.full i s = (s.cache i).slabs_full

abbrev pub set_head : Which → (i x : ℕ) → Slabs → Slabs
set_head Which.partial i x s = record s {
  cache = update s.cache i (record (s.cache i) { slabs_partial = x });
}
set_head Which.full i x s = record s {
  cache = update s.cache i (record (s.cache i) { slabs_full = x });
}

abbrev pub set_slab : (a : ℕ) → SlabHeader → Slabs → Slabs
set_slab a x s = record s { slab = update s.slab a x }

abbrev pub num_caches : ℕ
num_caches = 8

-- The sizes of the caches, 16 to 2048.
abbrev pub empty_cache : ℕ → KmemCache
empty_cache i = record { obj_size = 16 * 2 ^ i; slabs_partial = 0; slabs_full = 0 }

unfoldable pub init_slab_loop : (rounds i : ℕ) → Slabs → Slabs
init_slab_loop zero i s = s
init_slab_loop (suc rounds) i s =
    init_slab_loop rounds (i + 1) (record s { cache = update s.cache i (empty_cache i) })

unfoldable pub init_slab : Slabs → Slabs
init_slab s = init_slab_loop num_caches 0 s

-- `slab->prev = slab->prev = NULL`: the field `next` stays.
unfoldable pub slab_list_remove : Which → (i slab : ℕ) → Slabs → Slabs
slab_list_remove w i slab s =
    let n = (s.slab slab).next in
    let p = (s.slab slab).prev in
    let s1 : Slabs = if n == 0 then s else set_slab n (record (s.slab n) { prev = p }) s in
    let s2 : Slabs =
      if p == 0 then set_head w i n s1 else set_slab p (record (s1.slab p) { next = n }) s1 in
    set_slab slab (record (s2.slab slab) { prev = 0 }) s2

unfoldable pub slab_list_add : Which → (i slab : ℕ) → Slabs → Slabs
slab_list_add w i slab s =
    let h = head_of w i s in
    let s1 = set_slab slab (record (s.slab slab) { next = h; prev = 0 }) s in
    let s2 : Slabs = if h == 0 then s1 else set_slab h (record (s1.slab h) { prev = slab }) s1 in
    set_head w i slab s2

-- The loop of `slab_create`: the words, and how many objects there are. `none` means that the fuel ran out.
unfoldable pub fill_loop :
    (fuel curr obj_size page_end free_count : ℕ) → (ℕ → ℕ) → Option (ℕ × (ℕ → ℕ))
fill_loop zero curr obj_size page_end free_count word = none
fill_loop (suc fuel) curr obj_size page_end free_count word =
    let next = add64 curr obj_size in
    let link = if leb (add64 next obj_size) page_end then next else 0 in
    let rest = fill_loop fuel next obj_size page_end (free_count + 1) (update word curr link) in
    if leb next page_end then rest else some (free_count, word)

-- `(page + sizeof(slab_t) + 7) & ~7`
abbrev pub first_obj : ℕ → ℕ
first_obj page = add64 (add64 page 40) 7 / 8 * 8

abbrev pub set_is_slab : (indx : ℕ) → Bool → Buddy → Buddy
set_is_slab indx b s = record s {
  metadata = update s.metadata indx (record (s.metadata indx) { is_slab = b });
}

-- The slab with its header, once the objects are linked.
abbrev pub with_header : (page i : ℕ) → Slabs → (count : ℕ) → (ℕ → ℕ) → Slabs
with_header page i s count words = record {
  slab = update s.slab page (record (s.slab page) {
    parent_cache = i;
    free_list = first_obj page;
    free_count = count;
    total_count = count;
  });
  word = words;
  cache = s.cache;
  buddy = set_is_slab (index_of page) true s.buddy;
}

abbrev pub install : (page i : ℕ) → Slabs → Option (ℕ × (ℕ → ℕ)) → Option (ℕ × Slabs)
install page i s none = none
install page i s (some (count, words)) = some (page, with_header page i s count words)

-- `slab_create` behind the call of `buddy_alloc`, with the fuel of the loop.
unfoldable pub create_at : (fuel page i : ℕ) → Slabs → Option (ℕ × Slabs)
create_at fuel page i s =
    install page i s
      (fill_loop fuel (first_obj page) (s.cache i).obj_size (add64 page 4096) 0 s.word)

-- `slab_create`; the fuel is for `buddy_alloc` and for the loop.
unfoldable pub slab_create : (fuel i : ℕ) → Slabs → Option (ℕ × Slabs)
slab_create fuel i s = elim (buddy_alloc fuel 0 s.buddy) [
  | none ↦ none
  | some (page, b) ↦
      let filled = create_at fuel page i (record s { buddy = b }) in
      if page == 0 then some (0, record s { buddy = b }) else filled
]

-- The part of `slab_alloc` behind the creation of a slab.
unfoldable pub take_object : (i : ℕ) → Slabs → ℕ × Slabs
take_object i s =
    let a = (s.cache i).slabs_partial in
    let obj = (s.slab a).free_list in
    let count = ((s.slab a).free_count + 2 ^ 32 - 1) % 2 ^ 32 in
    let s1 = set_slab a (record (s.slab a) { free_list = s.word obj; free_count = count }) s in
    (
      obj,
      if count == 0
          then slab_list_add Which.full i a (slab_list_remove Which.partial i a s1)
          else s1,
    )

unfoldable pub slab_alloc : (fuel i : ℕ) → Slabs → Option (ℕ × Slabs)
slab_alloc fuel i s =
    let created : Option (ℕ × Slabs) = elim (slab_create fuel i s) [
      | none ↦ none
      | some (a, s1) ↦
          if a == 0 then some (0, s1) else some (take_object i (slab_list_add Which.partial i a s1))
    ] in
    if (s.cache i).slabs_partial == 0 then created else some (take_object i s)

-- `slab_free` of an object that is not null.
unfoldable pub give_object : (ptr : ℕ) → Slabs → Slabs
give_object ptr s =
    let a = ptr / 4096 * 4096 in
    let i = (s.slab a).parent_cache in
    let s1 : Slabs =
      if (s.slab a).free_count == 0
      then slab_list_add Which.partial i a (slab_list_remove Which.full i a s)
      else s in
    let s2 : Slabs = record s1 { word = update s1.word ptr (s1.slab a).free_list } in
    let count = ((s2.slab a).free_count + 1) % 2 ^ 32 in
    let s3 = set_slab a (record (s2.slab a) { free_list = ptr; free_count = count }) s2 in
    let s4 = slab_list_remove Which.partial i a s3 in
    if count == (s3.slab a).total_count
    then record s4 { buddy = buddy_free a (set_is_slab (index_of ptr) false s4.buddy) }
    else s3

unfoldable pub slab_free : (ptr : ℕ) → Slabs → Slabs
slab_free ptr s = if ptr == 0 then s else give_object ptr s

-- The loop of `kmalloc` that finds the order for a size above 2048; `none` means that the fuel ran out.
unfoldable pub order_loop : (fuel s order size : ℕ) → Option ℕ
order_loop zero s order size = none
order_loop (suc fuel) s order size =
    let rest = order_loop fuel (s * 2 % 2 ^ 64) (order + 1) size in
    if ltb s size then rest else some order

-- The first cache from `i` on whose objects are large enough, or `num_caches`.
unfoldable pub find_cache : (rounds i size : ℕ) → Slabs → ℕ
find_cache zero i size s = i
find_cache (suc rounds) i size s =
    let rest = find_cache rounds (i + 1) size s in if leb size (s.cache i).obj_size then i else rest

unfoldable pub kmalloc_large : (fuel size : ℕ) → Slabs → Option (ℕ × Slabs)
kmalloc_large fuel size s = elim (order_loop fuel 4096 0 size) [
  | none ↦ none
  | some order ↦ elim (buddy_alloc fuel order s.buddy) [
    | none ↦ none
    | some (mem, b) ↦ some (mem, record s { buddy = b })
  ]
]

unfoldable pub kmalloc : (fuel size : ℕ) → Slabs → Option (ℕ × Slabs)
kmalloc fuel size s =
    let i = find_cache num_caches 0 size s in
    let large = kmalloc_large fuel size s in
    let small = slab_alloc fuel i s in
    if size == 0
    then some (0, s)
    else if ltb 2048 size
    then large
    else if i == num_caches
    then some (0, s)
    else small

unfoldable pub kfree : (ptr : ℕ) → Slabs → Slabs
kfree ptr s =
    if ptr == 0
    then s
    else if (s.buddy.metadata (index_of ptr)).is_slab
    then slab_free ptr s
    else record s { buddy = buddy_free ptr s.buddy }

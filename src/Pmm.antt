-- ===== src/Pmm.antt =====
-- The physical memory manager, mm/pmm.c: a bitmap with one bit for each 4 KiB page frame.
-- `pmm_lock` brackets `pmm_alloc_page`, which is one atomic step here.
pub mod Bitmap
pub mod Page
pub mod Run
mod Tests
use destin_x.Prelude.{
  ℕ, zero, suc, ◌+◌, ◌-◌, ◌*◌, ◌/◌, ◌%◌, ◌^◌, ◌≤◌, ◌<◌, ◌≡◌, ◌≢◌, ◌↔◌, ◌⊎◌, refl, sym, ap, ◌∙◌, inl,
  inr, Bool, true, false, not, ◌&&◌, ◌||◌, Option, none, some, List, [], ◌∷◌, ◌++◌, map, arith, ltb,
  leb, ◌==◌, if◌then◌else◌, update, add64, sub64, Bool-cases, Option-cases, ==_iff, ==_self, ltb→lt,
  lt→ltb, length, get_elem?, length-append, bit_and, bit_or, bit_xor, has, ◌∈◌, ◌∉◌, has-append,
}
use destin_x.Prelude.Bits.{set_bit, clr_bit, test_bit}

-- `bitmap` by its bytes, and `total_pages`.
pub record Pmm : Type 0 where
  pub bitmap : ℕ → ℕ
  pub total_pages : ℕ

abbrev pub page_size : ℕ
page_size = 4096

unfoldable pub bitmap_set : Pmm → ℕ → Pmm
bitmap_set s i = record s { bitmap = update s.bitmap (i / 8) (set_bit (s.bitmap (i / 8)) (i % 8)) }

unfoldable pub bitmap_clr : Pmm → ℕ → Pmm
bitmap_clr s i = record s { bitmap = update s.bitmap (i / 8) (clr_bit (s.bitmap (i / 8)) (i % 8)) }

unfoldable pub bitmap_test : Pmm → ℕ → Bool
bitmap_test s i = test_bit (s.bitmap (i / 8)) (i % 8)

-- The loop of `pmm_alloc_page` from page `i` on, with the rounds that are left.
alloc_page_loop : ℕ → ℕ → Pmm → ℕ × Pmm
alloc_page_loop zero i s = (0, s)
alloc_page_loop (suc rounds) i s =
    let rest = alloc_page_loop rounds (i + 1) s in
    if not (bitmap_test s i) then (i * page_size % 2 ^ 64, bitmap_set s i) else rest

unfoldable pub alloc_page : Pmm → ℕ × Pmm
unfolding alloc_page_loop
alloc_page s = alloc_page_loop s.total_pages 0 s

-- The first `j` from the given one on, in so many rounds, at which page `i + j` is taken.
first_taken : Pmm → ℕ → ℕ → ℕ → Option ℕ
first_taken s i zero j = none
first_taken s i (suc rounds) j =
    let rest = first_taken s i rounds (j + 1) in if bitmap_test s (i + j) then some j else rest

-- `for (j = 0; j < pages_count; j++) BITMAP_SET(i + j)`, from `j` on.
set_run : ℕ → ℕ → ℕ → Pmm → Pmm
set_run zero i j s = s
set_run (suc rounds) i j s = set_run rounds i (j + 1) (bitmap_set s (i + j))

-- `i * PAGE_SIZE_4KB` at `int i` is an `int` product; the return converts it to `uint64_t`.
unfoldable pub int_page_addr : ℕ → ℕ
int_page_addr i =
    let low = i * page_size % 2 ^ 32 in if ltb low (2 ^ 31) then low else low + (2 ^ 64 - 2 ^ 32)

-- The loop of `pmm_alloc_pages`; `none` means that the fuel ran out or that `int i` went past its range.
alloc_pages_loop : ℕ → ℕ → ℕ → Pmm → Option (ℕ × Pmm)
alloc_pages_loop zero count i s = none
alloc_pages_loop (suc fuel) count i s =
    let next = alloc_pages_loop fuel count (i + 1) s in
    let scan : Option (ℕ × Pmm) = elim (first_taken s i (count - 1) 1) [
      | none ↦ some (int_page_addr i, set_run count i 0 s)
      | some j ↦ alloc_pages_loop fuel count (i + j + 1) s
    ] in
    if leb (2 ^ 31) i
    then none
    else if leb i s.total_pages
    then (if bitmap_test s i then next else scan)
    else some (0, s)

unfoldable pub alloc_pages : ℕ → Pmm → Option (ℕ × Pmm)
unfolding alloc_pages_loop first_taken set_run
alloc_pages count s =
    if count == 0
    then some (0, s)
    else if ltb s.total_pages count
    then some (0, s)
    else alloc_pages_loop (s.total_pages + 2) count 0 s

unfoldable pub free_page : ℕ → Pmm → Pmm
free_page paddr s =
    let bit = paddr / page_size in
    if paddr == 0
    then s
    else if leb s.total_pages bit
    then s
    else if not (bitmap_test s bit)
    then s
    else bitmap_clr s bit

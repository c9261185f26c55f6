-- ===== src/Vmm.antt =====
-- The page tables, mm/vmm.c. The memory is a function from the address of a 64-bit word; the flush of the
-- translation buffer after a change is the processor's.
pub mod Entry
pub mod Tables
pub mod Walk
mod Tests
use destin_x.Prelude.{
  ℕ, zero, suc, ◌+◌, ◌-◌, ◌*◌, ◌/◌, ◌%◌, ◌^◌, ◌≤◌, ◌<◌, ◌≡◌, ◌≢◌, ◌↔◌, ◌⊎◌, refl, sym, ap, ◌∙◌, inl,
  inr, Bool, true, false, not, ◌&&◌, ◌||◌, Option, none, some, List, [], ◌∷◌, ◌++◌, map, arith, ltb,
  leb, ◌==◌, if◌then◌else◌, update, add64, sub64, Bool-cases, Option-cases, ==_iff, ==_self, ltb→lt,
  lt→ltb, length, get_elem?, length-append, bit_and, bit_or, bit_xor, has, ◌∈◌, ◌∉◌, has-append,
}
use destin_x.Pmm.{Pmm, alloc_page}

pub record Vmm : Type 0 where
  pub word : ℕ → ℕ
  pub pmm : Pmm

abbrev pub direct_offset : ℕ
direct_offset = 0xFFFF800000000000

abbrev pub page_size_4kb : ℕ
page_size_4kb = 0x1000

abbrev pub page_size_2mb : ℕ
page_size_2mb = 0x200000

-- `x & PTE_PRESENT`, `x & PTE_USER` and `x & PTE_PAGE_SIZE`
abbrev pub is_present : ℕ → Bool
is_present x = x % 2 == 1

abbrev pub is_user : ℕ → Bool
is_user x = (x / 4) % 2 == 1

abbrev pub is_large : ℕ → Bool
is_large x = (x / 128) % 2 == 1

-- `x & PAGE_MASK_4KB`
abbrev pub page_of : ℕ → ℕ
page_of x = x - x % page_size_4kb

-- The four indices, nine bits of `vaddr` each.
abbrev pub pml4_indx : ℕ → ℕ
pml4_indx vaddr = (vaddr / 2 ^ 39) % 512

abbrev pub pdpt_indx : ℕ → ℕ
pdpt_indx vaddr = (vaddr / 2 ^ 30) % 512

abbrev pub pd_indx : ℕ → ℕ
pd_indx vaddr = (vaddr / 2 ^ 21) % 512

abbrev pub pt_indx : ℕ → ℕ
pt_indx vaddr = (vaddr / 2 ^ 12) % 512

-- The address of `table[indx]` for the table at the physical address `table`.
abbrev pub cell : (table indx : ℕ) → ℕ
cell table indx = add64 (add64 table direct_offset) (8 * indx)

abbrev pub set_word : ℕ → ℕ → Vmm → Vmm
set_word a x v = record v { word = update v.word a x }

-- `memset(new_table, 0, PAGE_SIZE_4KB)`, which sets 512 words.
unfoldable pub clear_words : ℕ → ℕ → (ℕ → ℕ) → ℕ → ℕ
clear_words zero a mem = mem
clear_words (suc count) a mem = clear_words count (add64 a 8) (update mem a 0)

abbrev pub clear_table : ℕ → Vmm → Vmm
clear_table table v = record v { word = clear_words 512 (add64 table direct_offset) v.word }

-- A new table for the entry at `a`.
abbrev pub new_table : (flags a : ℕ) → Vmm → Vmm
new_table flags a v =
    let new_table_phys = (alloc_page v.pmm).0 in
    let v1 = clear_table new_table_phys (record v { pmm = (alloc_page v.pmm).1 }) in
    set_word a (bit_or new_table_phys (if is_user flags then 7 else 3)) v1

-- The entry at `a` leads to a table, for the user when the flags say so.
unfoldable pub provide : (flags a : ℕ) → Vmm → Vmm
provide flags a v =
    if not (is_present (v.word a))
    then new_table flags a v
    else if is_user flags
    then set_word a (bit_or (v.word a) 4) v
    else v

-- The tables below the first one after `provide`, and the memory in which they stand.
abbrev pub descend : (flags table indx : ℕ) → Vmm → ℕ × Vmm
descend flags table indx v =
    let v1 = provide flags (cell table indx) v in (page_of (v1.word (cell table indx)), v1)

unfoldable pub vmm_map_page : (pml4_phys paddr vaddr ps flags : ℕ) → Vmm → Vmm
vmm_map_page pml4_phys paddr vaddr ps flags v =
    let (pdpt, v1) = descend flags pml4_phys (pml4_indx vaddr) v in
    let (pd, v2) = descend flags pdpt (pdpt_indx vaddr) v1 in
    let (pt, v3) = descend flags pd (pd_indx vaddr) v2 in
    if ps == page_size_4kb
    then set_word (cell pt (pt_indx vaddr)) (bit_or paddr (bit_or 1 flags)) v3
    else if ps == page_size_2mb
    then set_word (cell pd (pd_indx vaddr)) (bit_or paddr (bit_or 129 flags)) v2
    else v2

-- `vmm_get_entry`: the address of the entry and its level, or `none` for `NULL`.
unfoldable pub vmm_get_entry : (pml4_phys vaddr : ℕ) → Vmm → Option (ℕ × ℕ)
vmm_get_entry pml4_phys vaddr v =
    let a4 = cell pml4_phys (pml4_indx vaddr) in
    let a3 = cell (page_of (v.word a4)) (pdpt_indx vaddr) in
    let a2 = cell (page_of (v.word a3)) (pd_indx vaddr) in
    let a1 = cell (page_of (v.word a2)) (pt_indx vaddr) in
    if not (is_present (v.word a4))
    then none
    else if is_large (v.word a4)
    then some (a4, 3)
    else if not (is_present (v.word a3))
    then none
    else if is_large (v.word a3)
    then some (a3, 2)
    else if not (is_present (v.word a2))
    then none
    else if is_large (v.word a2)
    then some (a2, 2)
    else some (a1, 0)

-- `vmm_unmap_page` behind its call of `vmm_get_entry`.
abbrev pub unmap_entry : Vmm → Option (ℕ × ℕ) → ℕ × Vmm
unmap_entry v none = (0, v)
unmap_entry v (some (a, level)) = (page_of (v.word a), set_word a 0 v)

unfoldable pub vmm_unmap_page : (pml4_phys vaddr : ℕ) → Vmm → ℕ × Vmm
vmm_unmap_page pml4_phys vaddr v = unmap_entry v (vmm_get_entry pml4_phys vaddr v)

-- `none` means that the source reads through the `NULL` it got.
abbrev pub read_entry : Vmm → Option (ℕ × ℕ) → Option ℕ
read_entry v none = none
read_entry v (some (a, level)) = some (page_of (v.word a))

unfoldable pub vmm_get_paddr : (pml4_phys vaddr : ℕ) → Vmm → Option ℕ
vmm_get_paddr pml4_phys vaddr v = read_entry v (vmm_get_entry pml4_phys vaddr v)

-- ===== src/Mmap.antt =====
-- Mapped memory, mm/mmap.c, mm/vmalloc.c and mm/stack.c: the areas of Areas with the page tables of Vmm. The
-- address `i` that `kmalloc` returns for a new area is an argument, and so is `cr3`.
pub mod Laws
mod Tests
use destin_x.Prelude.{
  ℕ, zero, suc, ◌+◌, ◌-◌, ◌*◌, ◌/◌, ◌%◌, ◌^◌, ◌≤◌, ◌<◌, ◌≡◌, ◌≢◌, ◌↔◌, ◌⊎◌, refl, sym, ap, ◌∙◌, inl,
  inr, Bool, true, false, not, ◌&&◌, ◌||◌, Option, none, some, List, [], ◌∷◌, ◌++◌, map, arith, ltb,
  leb, ◌==◌, if◌then◌else◌, update, add64, sub64, Bool-cases, Option-cases, ==_iff, ==_self, ltb→lt,
  lt→ltb, length, get_elem?, length-append, bit_and, bit_or, bit_xor, has, ◌∈◌, ◌∉◌, has-append,
}
use destin_x.Pmm.{Pmm, alloc_page, free_page}
use destin_x.Vmm.{Vmm, page_size_4kb, vmm_map_page, vmm_unmap_page}
use destin_x.Areas.{
  VmArea, Areas, Span, vm_add_to_list, mmap_add_to_list, us_add_to_list, remove_from_list,
  find_area,
}

-- One list of areas, the page tables, and `mmap_infos` of the current process.
pub record Space : Type 0 where
  pub areas : Areas
  pub vmm : Vmm
  pub mmap_infos : ℕ

-- `(size + PAGE_SIZE_4KB - 1) & PAGE_MASK_4KB`
abbrev pub round_up : ℕ → ℕ
round_up size = let x = add64 size (page_size_4kb - 1) in x - x % page_size_4kb

-- The rounds of `for (j = 0; j < size; j += PAGE_SIZE_4KB)`, for sizes below 2^31.
abbrev pub rounds_of : ℕ → ℕ
rounds_of size = (size + (page_size_4kb - 1)) / page_size_4kb

abbrev pub set_area : ℕ → VmArea → Areas → Areas
set_area i x s = record s { area = update s.area i x }

-- `-EINVAL` and `-ENOMEM` as a `uint64_t`
abbrev pub einval : ℕ
einval = 2 ^ 64 - 22

abbrev pub enomem : ℕ
enomem = 2 ^ 64 - 12

-- `flags & MAP_FIXED` and `flags & MAP_ANONYMOUS`
abbrev pub is_fixed : ℕ → Bool
is_fixed flags = (flags / 16) % 2 == 1

abbrev pub is_anonymous : ℕ → Bool
is_anonymous flags = (flags / 32) % 2 == 1

-- What `mmap` writes to the area before it joins the list; `file` is `fd_table[fd]`.
unfoldable pub prepare : (i size prot flags file offset : ℕ) → Areas → Areas
prepare i size prot flags file offset s =
    let x = record (s.area i) { size = round_up size; prot = prot; flags = flags } in
    set_area i
      (if not (is_anonymous flags) && not (file == 0)
        then record x { file = file; file_pgoff = offset }
        else x)
      s

abbrev pub mmap_result : (i : ℕ) → Space → Option Areas → Option (ℕ × Space)
mmap_result i s none = none
mmap_result i s (some areas) = some (
  sub64 (areas.area i).base (areas.area i).size,
  record s { areas = areas; mmap_infos = areas.head },
)

-- `none` means that the fuel ran out.
unfoldable pub mmap : (fuel i size prot flags file offset : ℕ) → Space → Option (ℕ × Space)
mmap fuel i size prot flags file offset s =
    if is_fixed flags || (size == 0) || not (offset % page_size_4kb == 0)
    then some (einval, s)
    else if i == 0
    then some (enomem, s)
    else mmap_result i s (mmap_add_to_list fuel i (prepare i size prot flags file offset s.areas))

-- The loop that unmaps the pages from `vaddr` on and frees them.
unfoldable pub unmap_pages : (rounds pml4 vaddr : ℕ) → Vmm → Vmm
unmap_pages zero pml4 vaddr v = v
unmap_pages (suc rounds) pml4 vaddr v =
    let (paddr, v1) = vmm_unmap_page pml4 vaddr v in
    unmap_pages rounds pml4 (add64 vaddr page_size_4kb) (record v1 { pmm = free_page paddr v1.pmm })

-- The pages of the area `i` from `vaddr` on, and the area itself, are given back.
unfoldable pub release : (i pml4 vaddr : ℕ) → Space → Space
release i pml4 vaddr s = record s {
  vmm = unmap_pages (rounds_of (s.areas.area i).size) pml4 vaddr s.vmm;
  areas = remove_from_list i s.areas;
}

-- Where a downward area begins.
abbrev pub low_end : Span → ℕ
low_end c = sub64 c.0 c.1

abbrev pub span_at : ℕ → Space → Span
span_at i s = ((s.areas.area i).base, (s.areas.area i).size)

unfoldable pub munmap_by_info : (i pml4 : ℕ) → Space → Space
munmap_by_info i pml4 s = release i pml4 (low_end (span_at i s)) s

abbrev pub set_infos : Space → Space
set_infos s = record s { mmap_infos = s.areas.head }

-- A search that ends without an area changes nothing.
abbrev pub when_found : (ℕ → Space → Space) → Space → Option ℕ → Option Space
when_found f s none = none
when_found f s (some i) = some (if i == 0 then s else f i s)

unfoldable pub munmap : (fuel ptr pml4 : ℕ) → Space → Option Space
munmap fuel ptr pml4 s =
    when_found (λ i t. set_infos (munmap_by_info i pml4 t)) s
      (find_area low_end fuel s.areas.head ptr s.areas)

abbrev pub pte_writable : ℕ
pte_writable = 2

abbrev pub pte_user : ℕ
pte_user = 4

abbrev pub map_new_page : (pml4 vaddr flags : ℕ) → Vmm → Vmm
map_new_page pml4 vaddr flags v =
    let (paddr, pmm) = alloc_page v.pmm in
    vmm_map_page pml4 paddr vaddr page_size_4kb flags (record v { pmm = pmm })

-- The loop of `vmalloc` from `vaddr` on.
unfoldable pub vmalloc_pages : (rounds pml4 vaddr : ℕ) → Vmm → Vmm
vmalloc_pages zero pml4 vaddr v = v
vmalloc_pages (suc rounds) pml4 vaddr v =
    vmalloc_pages rounds pml4 (add64 vaddr page_size_4kb) (map_new_page pml4 vaddr pte_writable v)

abbrev pub based : (i : ℕ) → (ℕ → Vmm → Vmm) → Space → Option Areas → Option (ℕ × Space)
based i map_area s none = none
based i map_area s (some areas) =
    let base = (areas.area i).base in
    some (base, record s { areas = areas; vmm = map_area base s.vmm })

unfoldable pub vmalloc : (fuel i size cr3 : ℕ) → Space → Option (ℕ × Space)
vmalloc fuel i size cr3 s =
    if (size == 0) || (i == 0)
    then some (0, s)
    else based i (vmalloc_pages (rounds_of size) cr3) s (
        vm_add_to_list fuel i
          (set_area i (record (s.areas.area i) { size = round_up size }) s.areas))

unfoldable pub vfree : (fuel ptr cr3 : ℕ) → Space → Option Space
vfree fuel ptr cr3 s =
    when_found (λ i t. release i cr3 (t.areas.area i).base t) s
      (find_area (λ c. c.0) fuel s.areas.head ptr s.areas)

unfoldable pub kernel_alloc_stack : (fuel i size cr3 : ℕ) → Space → Option (ℕ × Space)
kernel_alloc_stack fuel i size cr3 s = if size == 0 then some (0, s) else vmalloc fuel i size cr3 s

-- Only the highest page is mmap_result.
unfoldable pub user_alloc_stack : (fuel i size cr3 : ℕ) → Space → Option (ℕ × Space)
user_alloc_stack fuel i size cr3 s =
    if (size == 0) || (i == 0)
    then some (0, s)
    else based i (λ base. map_new_page cr3 (sub64 base page_size_4kb) (pte_writable + pte_user)) s
        (us_add_to_list fuel i (set_area i (record (s.areas.area i) { size = size }) s.areas))

unfoldable pub user_free_stack : (fuel ptr cr3 : ℕ) → Space → Option Space
user_free_stack fuel ptr cr3 s =
    when_found (λ i t. release i cr3 (low_end (span_at i t)) t) s
      (find_area (λ c. c.0) fuel s.areas.head ptr s.areas)

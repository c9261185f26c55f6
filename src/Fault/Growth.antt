-- ===== src/Fault/Growth.antt =====
-- The stack grows page by page down to its bottom, and the heap stays above its start.
use destin_x.Prelude.{
  ℕ, ◌+◌, ◌%◌, ◌^◌, ◌≤◌, ◌<◌, ◌≡◌, ◌≢◌, ◌⊎◌, refl, sym, ap, ◌∙◌, inl, inr, false, some, arith, ltb,
  ◌==◌, sub64, Bool-cases, ==_iff,
}
use destin_x.Pmm.{Pmm, alloc_page}
use destin_x.Pmm.Page.{alloc_page_lem}
use destin_x.Mmap.{pte_writable, pte_user}
use destin_x.Vmm.{Vmm, page_size_4kb, page_of, vmm_get_paddr}
use destin_x.Vmm.Walk.{Walks, vmm_get_paddr-vmm_map_page}
use destin_x.Fault.{User, Outcome, in_guard, in_heap, map_user, page_fault_handler, brk}

-- The guard page lies below a whole number of pages of free stack, and the heap does not end before it starts.
pub record IsUser (u : User) : Type 0 where
  pub bottom : page_size_4kb ≤ u.stack_bottom
  pub above : u.stack_bottom ≤ u.page_guard_max
  pub below : u.page_guard_max < 2 ^ 64
  pub aligned : u.stack_bottom % page_size_4kb ≡ 0
  pub guard_aligned : u.page_guard_max % page_size_4kb ≡ 0
  pub guard : u.page_guard_min + page_size_4kb ≡ u.page_guard_max
  pub heap_aligned : u.heap_start % page_size_4kb ≡ 0
  pub heap : u.heap_start ≤ u.current_heap_end

-- The physical page that the fault gets, and the page tables when it is taken.
abbrev pub new_page : User → ℕ
new_page u = (alloc_page u.vmm.pmm).0

abbrev pub taken : User → Vmm
taken u = record u.vmm { pmm = (alloc_page u.vmm.pmm).1 }

-- A fault that grows maps the new page at the page of the fault, in the stack or in the heap.
abbrev pub Grown : (cr3 fault_address : ℕ) → (u : User) → Outcome → Type 0
Grown cr3 fault_address u (Outcome.grows v) =
    IsUser v
    × (vmm_get_paddr cr3 (page_of fault_address) v.vmm ≡ some (new_page u))
    × (((u.stack_bottom ≤ page_of fault_address) × (v.page_guard_max ≡ page_of fault_address))
        ⊎ ((u.heap_start ≤ page_of fault_address)
            × (fault_address < u.current_heap_end)
            × (v.pages_alloced ≡ u.pages_alloced + 1)))
Grown cr3 fault_address u Outcome.exits = u.page_guard_max ≡ u.stack_bottom
Grown cr3 fault_address u Outcome.searches =
    (in_guard fault_address u ≡ false) × (in_heap fault_address u ≡ false)

new_page-aligned : (u : User) → u.vmm.pmm.total_pages < 2 ^ 52 → new_page u % page_size_4kb ≡ 0
new_page-aligned u small = elim (alloc_page_lem u.vmm.pmm small) [
  | inl (none_free, all) ↦
      let zero_page : new_page u ≡ 0 = ap (λ (o : ℕ × Pmm). o.0) none_free in
      omega (arith, zero_page)
  | inr (p, t) ↦ let at = t.addr in omega (arith, at)
]

maps_page :
    (cr3 vaddr : ℕ) (u : User)
    → Walks (pte_writable + pte_user) cr3 vaddr (taken u)
    → u.vmm.pmm.total_pages < 2 ^ 52
    → vmm_get_paddr cr3 vaddr (map_user cr3 vaddr u) ≡ some (new_page u)
maps_page cr3 vaddr u w small =
    (vmm_get_paddr-vmm_map_page (pte_writable + pte_user) cr3 (new_page u) vaddr (taken u) w
      (new_page-aligned u small) (omega arith)).0

brk-IsUser :
    (addr : ℕ) (u : User) → IsUser u → ((brk addr u).0 ≡ u.current_heap_end) × IsUser (brk addr u).1
unfolding brk
brk-IsUser addr u w = elim (Bool-cases (ltb addr u.heap_start)) [
  | inl low ↦ rw low (refl, w)
  | inr high ↦ rw high (
    refl,
    record {
      bottom = w.bottom;
      above = w.above;
      below = w.below;
      aligned = w.aligned;
      guard_aligned = w.guard_aligned;
      guard = w.guard;
      heap_aligned = w.heap_aligned;
      heap = ground (arith, high);
    },
  )
]

page_fault_handler-Grown :
    (cr3 fault_address : ℕ) (u : User)
    → IsUser u
    → Walks (pte_writable + pte_user) cr3 (page_of fault_address) (taken u)
    → u.vmm.pmm.total_pages < 2 ^ 52
    → Grown cr3 fault_address u (page_fault_handler cr3 fault_address u)
unfolding page_fault_handler
page_fault_handler-Grown cr3 fault u w tables small = elim (Bool-cases (in_guard fault u)) [
  | inl here ↦ elim (Bool-cases (u.page_guard_max == u.stack_bottom)) [
    | inl full ↦
        rw (page_fault_handler, here, full) ((==_iff u.page_guard_max u.stack_bottom).0 full)
    | inr free ↦
        let open_stack : u.page_guard_max ≢ u.stack_bottom = ground (arith, free) in
        let max : sub64 u.page_guard_max page_size_4kb ≡ u.page_guard_min =
          omega (arith, w.below, w.guard) in
        let room : u.stack_bottom + page_size_4kb ≤ u.page_guard_max =
          omega (arith, open_stack, w.above, w.aligned, w.guard_aligned) in
        let at : page_of fault ≡ u.page_guard_min =
          ground (arith, here, w.guard, w.guard_aligned) in
        let found : vmm_get_paddr cr3 (page_of fault) (map_user cr3 u.page_guard_min u)
            ≡ some (new_page u) =
          ap (λ (a : ℕ). vmm_get_paddr cr3 (page_of fault) (map_user cr3 a u)) (sym at)
          ∙ maps_page cr3 (page_of fault) u tables small in
        rw (page_fault_handler, here, free)
          (
            record {
              bottom = w.bottom;
              above = rw max (omega (arith, room, w.guard));
              below = rw max (omega (arith, w.below, w.guard));
              aligned = w.aligned;
              guard_aligned = rw max (omega (arith, w.guard, w.guard_aligned));
              guard = omega (arith, room, w.guard, w.below, w.bottom);
              heap_aligned = w.heap_aligned;
              heap = w.heap;
            },
            found,
            inl (rw at (omega (arith, room, w.guard)), max ∙ sym at),
          )
  ]
  | inr away ↦ elim (Bool-cases (in_heap fault u)) [
    | inl here ↦
        rw (page_fault_handler, away, here)
          (
            record {
              bottom = w.bottom;
              above = w.above;
              below = w.below;
              aligned = w.aligned;
              guard_aligned = w.guard_aligned;
              guard = w.guard;
              heap_aligned = w.heap_aligned;
              heap = w.heap;
            },
            maps_page cr3 (page_of fault) u tables small,
            inr (ground (arith, here, w.heap_aligned), ground (arith, here), refl),
          )
    | inr none_there ↦ rw (page_fault_handler, away, none_there) (away, none_there)
  ]
]

-- `brk` returns the old end of the heap and keeps the user's memory well-formed, whatever the address. The fault
-- handler keeps it too when it grows the stack or the heap, and behind it the page tables lead from the page of
-- the fault to the page that `pmm_alloc_page` gave: a page at or above the bottom of the stack, which the guard
-- page then lies below, or one from the start of the heap on, for a fault before its end. It ends the thread only
-- when the stack has no page left, and goes on to the mapped areas only for an address in neither. The tables on
-- the way to the page are different pages without a large page, and there are fewer than 2^52 pages.
pub page_fault_handler-brk :
    (cr3 fault_address addr : ℕ) (u : User)
    → IsUser u
    → Walks (pte_writable + pte_user) cr3 (page_of fault_address) (taken u)
    → u.vmm.pmm.total_pages < 2 ^ 52
    → ((brk addr u).0 ≡ u.current_heap_end)
      × IsUser (brk addr u).1
      × Grown cr3 fault_address u (page_fault_handler cr3 fault_address u)
page_fault_handler-brk cr3 fault addr u w tables small =
    let (old, kept) = brk-IsUser addr u w in
    (old, kept, page_fault_handler-Grown cr3 fault u w tables small)

-- ===== src/Fault.antt =====
-- The growth of a user's stack and heap: the first part of `page_fault_handler` in mm/page_fault.c, and `brk` in
-- mm/brk.c. The search of the mapped areas behind it is left out.
pub mod Growth
mod Tests
use destin_x.Prelude.{
  ℕ, zero, suc, ◌+◌, ◌-◌, ◌*◌, ◌/◌, ◌%◌, ◌^◌, ◌≤◌, ◌<◌, ◌≡◌, ◌≢◌, ◌↔◌, ◌⊎◌, refl, sym, ap, ◌∙◌, inl,
  inr, Bool, true, false, not, ◌&&◌, ◌||◌, Option, none, some, List, [], ◌∷◌, ◌++◌, map, arith, ltb,
  leb, ◌==◌, if◌then◌else◌, update, add64, sub64, Bool-cases, Option-cases, ==_iff, ==_self, ltb→lt,
  lt→ltb, length, get_elem?, length-append, bit_and, bit_or, bit_xor, has, ◌∈◌, ◌∉◌, has-append,
}
use destin_x.Vmm.{Vmm, page_size_4kb, page_of}
use destin_x.Mmap.{map_new_page, pte_writable, pte_user}

-- What the handler uses of the current thread and of its process, and the page tables.
pub record User : Type 0 where
  pub page_guard_min : ℕ
  pub page_guard_max : ℕ
  pub stack_bottom : ℕ
  pub heap_start : ℕ
  pub current_heap_end : ℕ
  pub pages_alloced : ℕ
  pub vmm : Vmm

-- The handler returns with one page more, ends the thread, or goes on to the mapped areas.
pub data Outcome : Type 0 where
  grows : User → Outcome
  exits searches : Outcome

abbrev pub in_guard : ℕ → User → Bool
in_guard fault_address u = ltb fault_address u.page_guard_max && leb u.page_guard_min fault_address

abbrev pub in_heap : ℕ → User → Bool
in_heap fault_address u = leb u.heap_start fault_address && ltb fault_address u.current_heap_end

abbrev pub map_user : (cr3 vaddr : ℕ) → User → Vmm
map_user cr3 vaddr u = map_new_page cr3 vaddr (pte_writable + pte_user) u.vmm

unfoldable pub page_fault_handler : (cr3 fault_address : ℕ) → User → Outcome
page_fault_handler cr3 fault_address u =
    if in_guard fault_address u
    then (if not (u.page_guard_max == u.stack_bottom)
        then Outcome.grows (record u {
          vmm = map_user cr3 u.page_guard_min u;
          page_guard_max = sub64 u.page_guard_max page_size_4kb;
          page_guard_min = sub64 u.page_guard_min page_size_4kb;
        })
        else Outcome.exits)
    else if in_heap fault_address u
    then Outcome.grows (record u {
      vmm = map_user cr3 (page_of fault_address) u;
      pages_alloced = u.pages_alloced + 1;
    })
    else Outcome.searches

unfoldable pub brk : ℕ → User → ℕ × User
brk addr u =
    if ltb addr u.heap_start
    then (u.current_heap_end, u)
    else (u.current_heap_end, record u { current_heap_end = addr })

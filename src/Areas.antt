-- ===== src/Areas.antt =====
-- The lists of `vm_area_t` of mm/vmalloc.c, mm/mmap.c and mm/stack.c. The three files keep
-- the same list by the same code; they differ in the start address and in the direction in
-- which the areas grow, which are parameters here. The instances stand at the end.
-- An area is reached by its address; null is address 0.
pub mod Spec
pub mod Add
pub mod Remove
pub mod Disjoint
pub mod Allocators
mod Tests
use destin_x.Prelude.{
  ℕ, zero, suc, ◌+◌, ◌-◌, ◌*◌, ◌/◌, ◌%◌, ◌^◌, ◌≤◌, ◌<◌, ◌≡◌, ◌≢◌, ◌↔◌, ◌⊎◌, refl, sym, ap, ◌∙◌, inl,
  inr, Bool, true, false, not, ◌&&◌, ◌||◌, Option, none, some, List, [], ◌∷◌, ◌++◌, map, arith, ltb,
  leb, ◌==◌, if◌then◌else◌, update, add64, sub64, Bool-cases, Option-cases, ==_iff, ==_self, ltb→lt,
  lt→ltb, length, get_elem?, length-append, bit_and, bit_or, bit_xor, has, ◌∈◌, ◌∉◌, has-append,
}

pub record VmArea : Type 0 where
  pub base : ℕ
  pub size : ℕ
  pub prot : ℕ
  pub flags : ℕ
  pub file : ℕ
  pub file_pgoff : ℕ
  pub next : ℕ
  pub prev : ℕ

-- The areas in memory, and the list head.
pub record Areas : Type 0 where
  pub area : ℕ → VmArea
  pub head : ℕ

-- Base and size.
abbrev pub Span : Type 0
Span = ℕ × ℕ

abbrev pub span : Areas → ℕ → Span
span s a = ((s.area a).base, (s.area a).size)

abbrev pub next_of : Areas → ℕ → ℕ
next_of s a = (s.area a).next

abbrev pub prev_of : Areas → ℕ → ℕ
prev_of s a = (s.area a).prev

abbrev pub set_next : ℕ → ℕ → Areas → Areas
set_next a q s = record s { area = update s.area a (record (s.area a) { next = q }) }

abbrev pub set_prev : ℕ → ℕ → Areas → Areas
set_prev a q s = record s { area = update s.area a (record (s.area a) { prev = q }) }

-- `i->base`, `i->next` and `i->prev` are written.
abbrev pub place : ℕ → (base next prev : ℕ) → Areas → Areas
place i b n v s = record s {
  area = update s.area i (record (s.area i) { base = b; next = n; prev = v });
}

-- Where the next area may start (`edge`), and whether one of a size fits between two areas.
pub record Direction : Type 0 where
  pub start : ℕ
  pub edge : Span → ℕ
  pub fits : Span → ℕ → Span → Bool

module _ (d : Direction) where
  -- The area `i` goes behind `current`, before `next`, if there is one.
  unfoldable pub link_after : (current i next : ℕ) → Areas → Areas
  link_after current i next s =
      let s1 = place i (d.edge (span s current)) next current s in
      let s2 = set_next current i s1 in if next == 0 then s2 else set_prev next i s2

  -- The walk over the list; `none` means that the fuel ran out.
  unfoldable pub add_loop : ℕ → (current i : ℕ) → Areas → Option Areas
  add_loop zero current i s = none
  add_loop (suc fuel) current i s =
      let next = next_of s current in
      let rest = add_loop fuel next i s in
      if next == 0
      then some (link_after current i 0 s)
      else if d.fits (span s current) (s.area i).size (span s next)
      then some (link_after current i next s)
      else rest

  unfoldable pub add_to_list : ℕ → ℕ → Areas → Option Areas
  add_to_list fuel i s =
      if s.head == 0
      then some (record (place i d.start 0 0 s) { head = i })
      else add_loop fuel s.head i s

unfoldable pub remove_from_list : ℕ → Areas → Areas
remove_from_list i s =
    let n = next_of s i in
    let v = prev_of s i in
    let s1 : Areas = if s.head == i then record s { head = n } else s in
    let s2 = if n == 0 then s1 else set_prev n v s1 in
    let s3 = if v == 0 then s2 else set_next v n s2 in
    if i == 0 then s else set_prev i 0 (set_next i 0 s3)

-- The search of `vfree`, `munmap` and `user_free_stack`: the first area whose key, its base or
-- its lowest address, is `ptr`; `some 0` if there is none.
unfoldable pub find_area : (Span → ℕ) → ℕ → (current ptr : ℕ) → Areas → Option ℕ
find_area key zero current ptr s = none
find_area key (suc fuel) current ptr s =
    let rest = find_area key fuel (next_of s current) ptr s in
    if current == 0 then some 0 else if key (span s current) == ptr then some current else rest

-- mm/vmalloc.c: areas grow upwards.
abbrev pub vmalloc_start : ℕ
vmalloc_start = 0xFFFFC00000000000

abbrev pub up : Direction
up = record {
  start = vmalloc_start;
  edge = λ c. add64 c.0 c.1;
  fits = λ c size n. leb (add64 (add64 c.0 c.1) size) n.0;
}

-- mm/mmap.c and mm/stack.c: areas grow downwards, and `base` is an area's upper end.
abbrev pub mmap_start : ℕ
mmap_start = 0x0000700000000000

abbrev pub user_stack_max : ℕ
user_stack_max = 0x00007FFFFFFFF000

abbrev pub down : ℕ → Direction
down start_at = record {
  start = start_at;
  edge = λ c. sub64 c.0 c.1;
  fits = λ c size n. leb n.0 (sub64 (sub64 c.0 c.1) size);
}

unfoldable pub vm_add_to_list : ℕ → ℕ → Areas → Option Areas
vm_add_to_list = add_to_list up

unfoldable pub mmap_add_to_list : ℕ → ℕ → Areas → Option Areas
mmap_add_to_list = add_to_list (down mmap_start)

unfoldable pub us_add_to_list : ℕ → ℕ → Areas → Option Areas
us_add_to_list = add_to_list (down user_stack_max)

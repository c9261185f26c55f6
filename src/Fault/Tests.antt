-- ===== src/Fault/Tests.antt =====
-- A user with a stack of three pages, of which one is mapped, and an empty heap.
use destin_x.Prelude.{◌≡◌, refl, arith, ◌==◌, if◌then◌else◌}
use destin_x.Prelude.Bits
use destin_x.Pmm.{alloc_page, bitmap_test, bitmap_set}
use destin_x.Vmm.{provide, clear_words}
use destin_x.Vmm.Walk.{Walks, s1, s2, s3, t1, t2, t3}
use destin_x.Fault.{User, page_fault_handler, brk}
use destin_x.Fault.Growth.{IsUser, taken, Grown, page_fault_handler-brk}

abbrev user : User
user = record {
  page_guard_min = 0x11000;
  page_guard_max = 0x12000;
  stack_bottom = 0x10000;
  heap_start = 0x5000;
  current_heap_end = 0x5000;
  pages_alloced = 0;
  vmm = record {
    word = λ a. 0;
    pmm = record { bitmap = λ b. if b == 0 then 1 else 0; total_pages = 16 };
  };
}

user-IsUser : IsUser user
user-IsUser = record {
  bottom = omega arith;
  above = omega arith;
  below = omega arith;
  aligned = refl;
  guard_aligned = refl;
  guard = refl;
  heap_aligned = refl;
  heap = omega arith;
}

tables_found :
    (t3 6 0 0x11000 (taken user) ≡ 0x2000)
    × (t2 6 0 0x11000 (taken user) ≡ 0x3000)
    × (t1 6 0 0x11000 (taken user) ≡ 0x4000)
unfolding t3 s1 provide clear_words t2 s2 t1 s3 alloc_page bitmap_test bitmap_set Bits.set_bit
    Bits.test_bit
tables_found = (refl, refl, refl)

user-Walks : Walks 6 0 0x11000 (taken user)
unfolding t3 s1 provide clear_words t2 s2 t1 s3 alloc_page bitmap_test bitmap_set Bits.set_bit
    Bits.test_bit
user-Walks = record {
  small = λ a. omega arith;
  root = (refl, omega arith);
  apart =
      let (e3, e2, e1) = tables_found in
      (
        λ e. absurd (omega (arith, e, e3)),
        λ e. absurd (omega (arith, e, e2)),
        λ e. absurd (omega (arith, e, e1)),
        λ e. absurd (omega (arith, e, e3, e2)),
        λ e. absurd (omega (arith, e, e3, e1)),
        λ e. absurd (omega (arith, e, e2, e1)),
      );
  large4 = refl;
  large3 = refl;
  large2 = refl;
}

page_fault_handler-brk_example :
    ((brk 0x7000 user).0 ≡ 0x5000)
    × IsUser (brk 0x7000 user).1
    × Grown 0 0x11FF8 user (page_fault_handler 0 0x11FF8 user)
page_fault_handler-brk_example =
    page_fault_handler-brk 0 0x11FF8 0x7000 user user-IsUser user-Walks (omega arith)

-- ===== src/Vmm/Tests.antt =====
-- An address space that starts empty, with page 0 for its first table.
use destin_x.Prelude.{ℕ, ◌≡◌, refl, some, arith, ◌==◌, if◌then◌else◌}
use destin_x.Prelude.Bits
use destin_x.Pmm.{alloc_page, bitmap_test, bitmap_set}
use destin_x.Vmm.{
  Vmm, page_size_4kb, vmm_map_page, vmm_unmap_page, vmm_get_paddr, provide, clear_words,
}
use destin_x.Vmm.Walk.{Walks, vmm_get_paddr-vmm_map_page, s1, s2, s3, t1, t2, t3}

abbrev empty : Vmm
empty = record {
  word = λ a. 0;
  pmm = record { bitmap = λ i. if i == 0 then 1 else 0; total_pages = 16 };
}

abbrev user_page : ℕ
user_page = 0x400000

tables_found :
    (t3 7 0 user_page empty ≡ 0x1000)
    × (t2 7 0 user_page empty ≡ 0x2000)
    × (t1 7 0 user_page empty ≡ 0x3000)
unfolding t3 s1 provide clear_words t2 s2 t1 s3 alloc_page bitmap_test bitmap_set Bits.set_bit
    Bits.test_bit
tables_found = (refl, refl, refl)

empty-Walks : Walks 7 0 user_page empty
unfolding t3 s1 provide clear_words t2 s2 t1 s3 alloc_page bitmap_test bitmap_set Bits.set_bit
    Bits.test_bit
empty-Walks = record {
  small = λ a. omega arith;
  root = (refl, omega arith);
  apart =
      let (e3, e2, e1) = tables_found in
      (
        λ e. absurd (omega (arith, e, e3)),
        λ e. absurd (omega (arith, e, e2)),
        λ e. absurd (omega (arith, e, e1)),
        λ e. absurd (omega (arith, e, e3, e2)),
        λ e. absurd (omega (arith, e, e3, e1)),
        λ e. absurd (omega (arith, e, e2, e1)),
      );
  large4 = refl;
  large3 = refl;
  large2 = refl;
}

vmm_get_paddr-vmm_map_page_example :
    (vmm_get_paddr 0 user_page (vmm_map_page 0 0x7000 user_page page_size_4kb 7 empty)
      ≡ some 0x7000)
    × ((vmm_unmap_page 0 user_page (vmm_map_page 0 0x7000 user_page page_size_4kb 7 empty)).0
        ≡ 0x7000)
    × (vmm_get_paddr 0 user_page
          (vmm_unmap_page 0 user_page (vmm_map_page 0 0x7000 user_page page_size_4kb 7 empty)).1
        ≡ some 0)
vmm_get_paddr-vmm_map_page_example =
    vmm_get_paddr-vmm_map_page 7 0 0x7000 user_page empty empty-Walks refl (omega arith)

-- ===== src/Areas/Tests.antt =====
-- Runs of the area lists, and the theorems at concrete lists.
use destin_x.Prelude.{
  ℕ, ◌+◌, ◌-◌, ◌≡◌, refl, Option, none, some, List, [], ◌∷◌, arith, ◌==◌, if◌then◌else◌,
}
use destin_x.Areas
use destin_x.Areas.{
  VmArea, Areas, Span, up, down, span, vmalloc_start, mmap_start, user_stack_max, vm_add_to_list,
  mmap_add_to_list, remove_from_list, find_area,
}
use destin_x.Areas.Spec.{IsList, spans}
use destin_x.Areas.Remove.{remove_from_list-IsList}
use destin_x.Areas.Disjoint.{Ascending, Descending}
use destin_x.Areas.Allocators.{Grown, vm_add_to_list-Grown, mmap_add_to_list-Grown}

abbrev area_at : ℕ → ℕ → ℕ → ℕ → VmArea
area_at b size n v = record {
  base = b;
  size = size;
  prot = 0;
  flags = 0;
  file = 0;
  file_pgoff = 0;
  next = n;
  prev = v;
}

-- Areas at 16 and 32 with a gap of two pages; an area of two pages at 48 is not yet linked.
abbrev rising : Areas
rising = record {
  area = λ a.
      if a == 16
      then area_at vmalloc_start 0x1000 32 0
      else if a == 32
      then area_at (vmalloc_start + 0x3000) 0x1000 0 16
      else area_at 0 0x2000 0 0;
  head = 16;
}

abbrev falling : Areas
falling = record {
  area = λ a.
      if a == 16
      then area_at mmap_start 0x1000 32 0
      else if a == 32
      then area_at (mmap_start - 0x2000) 0x1000 0 16
      else area_at 0 0x2000 0 0;
  head = 16;
}

abbrev two : List ℕ
two = 16 ∷ 32 ∷ []

rising-IsList : IsList rising two
rising-IsList = record { head = refl; chain = ground arith }

falling-IsList : IsList falling two
falling-IsList = record { head = refl; chain = ground arith }

bases : Option Areas → List ℕ → List Span
bases none xs = []
bases (some s) xs = spans s xs

-- Upwards the new area fills the gap.
vm_fills_gap :
    bases (vm_add_to_list 2 48 rising) (16 ∷ 48 ∷ 32 ∷ [])
    ≡ (vmalloc_start, 0x1000)
      ∷ (vmalloc_start + 0x1000, 0x2000)
      ∷ (vmalloc_start + 0x3000, 0x1000)
      ∷ []
unfolding bases vm_add_to_list Areas.add_to_list Areas.add_loop Areas.link_after
vm_fills_gap = refl

-- Downwards a gap of one page is too small, and the new area goes to the end.
mmap_skips_gap :
    bases (mmap_add_to_list 2 48 falling) (16 ∷ 32 ∷ 48 ∷ [])
    ≡ (mmap_start, 0x1000) ∷ (mmap_start - 0x2000, 0x1000) ∷ (mmap_start - 0x3000, 0x2000) ∷ []
unfolding bases mmap_add_to_list Areas.add_to_list Areas.add_loop Areas.link_after
mmap_skips_gap = refl

vm_add_to_list-Grown_example : Grown up Ascending rising 48 two (vm_add_to_list 2 48 rising)
vm_add_to_list-Grown_example =
    vm_add_to_list-Grown 2 rising 48 two rising-IsList (omega arith) refl (omega arith)
      (omega arith) (omega arith)

mmap_add_to_list-Grown_example :
    Grown (down mmap_start) Descending falling 48 two (mmap_add_to_list 2 48 falling)
    × Grown (down user_stack_max) Descending falling 48 two (Areas.us_add_to_list 2 48 falling)
mmap_add_to_list-Grown_example =
    mmap_add_to_list-Grown 2 falling 48 two falling-IsList (omega arith) refl (omega arith)
      (omega arith) (omega arith)

remove_from_list-IsList_example :
    IsList (remove_from_list 16 rising) (32 ∷ [])
    × ((a : ℕ) → span (remove_from_list 16 rising) a ≡ span rising a)
    × (((remove_from_list 16 rising).area 16).next ≡ 0)
    × (((remove_from_list 16 rising).area 16).prev ≡ 0)
remove_from_list-IsList_example = remove_from_list-IsList rising 16 [] (32 ∷ []) rising-IsList

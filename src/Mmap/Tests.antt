-- ===== src/Mmap/Tests.antt =====
-- Two areas of one page at the top of the mapped memory, with a gap of a page behind the first.
use destin_x.Prelude.{
  ℕ, ◌+◌, ◌-◌, ◌%◌, ◌^◌, ◌≤◌, ◌<◌, ◌≡◌, refl, some, List, [], ◌∷◌, arith, ◌==◌, if◌then◌else◌,
}
use destin_x.Vmm.{page_size_4kb}
use destin_x.Areas.{VmArea, Areas, down, mmap_start, mmap_add_to_list}
use destin_x.Areas.Spec.{IsList, spans}
use destin_x.Areas.Disjoint.{Descending}
use destin_x.Areas.Allocators.{Grown}
use destin_x.Mmap.{Space, round_up, prepare, mmap}
use destin_x.Mmap.Laws.{Maps, mmap-Grown}

abbrev area_at : ℕ → ℕ → ℕ → ℕ → VmArea
area_at b size n v = record {
  base = b;
  size = size;
  prot = 0;
  flags = 0;
  file = 0;
  file_pgoff = 0;
  next = n;
  prev = v;
}

abbrev falling : Areas
falling = record {
  area = λ a.
      if a == 16
      then area_at mmap_start 0x1000 32 0
      else if a == 32
      then area_at (mmap_start - 0x2000) 0x1000 0 16
      else area_at 0 0 0 0;
  head = 16;
}

abbrev space : Space
space = record {
  areas = falling;
  vmm = record { word = λ a. 0; pmm = record { bitmap = λ b. 0; total_pages = 8 } };
  mmap_infos = 16;
}

abbrev two : List ℕ
two = 16 ∷ 32 ∷ []

falling-IsList : IsList falling two
falling-IsList = record { head = refl; chain = ground arith }

-- A fixed address is refused with -EINVAL.
refuses_fixed : mmap 2 48 4096 3 0x10 0 0 space ≡ some (2 ^ 64 - 22, space)
unfolding mmap
refuses_fixed = refl

mmap-Grown_example :
    let s1 = prepare 48 0x1800 3 0x20 0 0 falling in
    (g : Grown (down mmap_start) Descending s1 48 two (mmap_add_to_list 2 48 s1)) × Maps 2 48 0x1800
      3 0x20 0 0 space g.s'
    × ((s1.area 48).size ≡ round_up 0x1800)
    × (spans s1 two ≡ spans falling two)
    × (0x1800 ≤ round_up 0x1800)
    × (round_up 0x1800 < 0x1800 + page_size_4kb)
    × (round_up 0x1800 % page_size_4kb ≡ 0)
mmap-Grown_example =
    mmap-Grown 2 48 0x1800 3 0x20 0 0 space two falling-IsList (ground arith) refl (omega arith)
      (ground arith) (omega arith) refl refl (omega arith) (omega arith)

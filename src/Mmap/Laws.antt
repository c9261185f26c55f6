-- ===== src/Mmap/Laws.antt =====
-- What `mmap` and `vmalloc` give to their caller.
use destin_x.Prelude.{
  ℕ, ◌+◌, ◌%◌, ◌^◌, ◌≤◌, ◌<◌, ◌≡◌, ◌≢◌, refl, ap, false, not, ◌||◌, some, List, [], ◌∷◌, arith,
  ◌==◌, sub64, length, ◌∈◌, ◌∉◌,
}
use destin_x.Links.{Chain-frame, if_ne, ne_of_mem}
use destin_x.Areas.{VmArea, Areas, next_of, prev_of, down, mmap_start, mmap_add_to_list}
use destin_x.Areas.Spec.{IsList, spans}
use destin_x.Areas.Disjoint.{Descending, RoomBelow}
use destin_x.Areas.Allocators.{Grown, mmap_add_to_list-Grown}
use destin_x.Vmm.{page_size_4kb}
use destin_x.Mmap.{Space, round_up, set_area, prepare, is_fixed, mmap}

-- An area that is not linked yet is written.
set_area-same :
    (i a : ℕ) (x : VmArea) (s : Areas) (xs : List ℕ)
    → i ∉ xs
    → a ∈ xs
    → (set_area i x s).area a ≡ s.area a
set_area-same i a x s xs out there = if_ne i a _ _ (ne_of_mem i a xs out there)

set_area-IsList :
    (i : ℕ) (x : VmArea) (s : Areas) (xs : List ℕ)
    → i ∉ xs
    → IsList s xs
    → IsList (set_area i x s) xs
set_area-IsList i x s xs out l = record {
  head = l.head;
  chain =
      Chain-frame (next_of s) (prev_of s) (next_of (set_area i x s)) (prev_of (set_area i x s)) 0 xs
        (λ a there.
          let same = set_area-same i a x s xs out there in
          (ap (λ (y : VmArea). y.next) same, ap (λ (y : VmArea). y.prev) same))
        l.chain;
}

set_area-spans :
    (i : ℕ) (x : VmArea) (s : Areas) (xs : List ℕ) → i ∉ xs → spans (set_area i x s) xs ≡ spans s xs
set_area-spans i x s [] out = refl
set_area-spans i x s (y ∷ ys) out =
    let far : i ≢ y = ground (arith, out) in
    let rest : i ∉ ys = ground (arith, out) in
    let here : (i == y) ≡ false = ground (arith, far) in
    rw (here, set_area-spans i x s ys rest) refl

round_up_lem :
    (size : ℕ)
    → size + page_size_4kb ≤ 2 ^ 64
    → (size ≤ round_up size)
      × (round_up size < size + page_size_4kb)
      × (round_up size % page_size_4kb ≡ 0)
round_up_lem size small = (omega (arith, small), omega (arith, small), omega (arith, small))

-- What `mmap` returns and leaves when its area has joined the list as in `s'`.
abbrev pub Maps : (fuel i size prot flags file offset : ℕ) → (s : Space) → Areas → Type 0
Maps fuel i size prot flags file offset s s' =
    mmap fuel i size prot flags file offset s
    ≡ some (sub64 (s'.area i).base (s'.area i).size, record s { areas = s'; mmap_infos = s'.head })

-- A call of `mmap` with a size that is not 0, an offset that is a multiple of the page size, without
-- MAP_FIXED, and with a new area `i`, for a list of areas that descend without overlap and have room below them:
-- it returns the lower end of the area, whose size is the given one up to the next multiple of the page size;
-- the area stands in the list at the first gap that is large enough, or at the end, no other span changes, and
-- still no two areas overlap.
pub mmap-Grown :
    (fuel i size prot flags file offset : ℕ) (s : Space) (xs : List ℕ)
    → IsList s.areas xs
    → i ≢ 0
    → i ∉ xs
    → length xs ≤ fuel
    → size ≢ 0
    → size + page_size_4kb ≤ 2 ^ 64
    → is_fixed flags ≡ false
    → offset % page_size_4kb ≡ 0
    → Descending (spans s.areas xs)
    → RoomBelow (round_up size) (spans s.areas xs)
    → let s1 = prepare i size prot flags file offset s.areas in
      (g : Grown (down mmap_start) Descending s1 i xs (mmap_add_to_list fuel i s1)) × Maps fuel i
        size prot flags file offset s g.s'
      × ((s1.area i).size ≡ round_up size)
      × (spans s1 xs ≡ spans s.areas xs)
      × (size ≤ round_up size)
      × (round_up size < size + page_size_4kb)
      × (round_up size % page_size_4kb ≡ 0)
unfolding mmap prepare
mmap-Grown fuel i size prot flags file offset s xs l ne new enough some_size small free aligned desc
      room =
    let s1 = prepare i size prot flags file offset s.areas in
    let l1 : IsList s1 xs = set_area-IsList i _ s.areas xs new l in
    let same : spans s1 xs ≡ spans s.areas xs = set_area-spans i _ s.areas xs new in
    let sized : (s1.area i).size ≡ round_up size = ground arith in
    let g =
      (mmap_add_to_list-Grown fuel s1 i xs l1 ne new enough (rw same desc)
        (rw (sized, same) room)).0 in
    let valid : (is_fixed flags || (size == 0) || not (offset % page_size_4kb == 0)) ≡ false =
      ground (arith, some_size, free, aligned) in
    let real : (i == 0) ≡ false = ground (arith, ne) in
    let (less, close, whole) = round_up_lem size small in
    (g, rw (mmap, valid, real, g.result) refl, sized, same, less, close, whole)

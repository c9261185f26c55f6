-- ===== src/Areas/Allocators.antt =====
-- The three allocators of address ranges: `vm_add_to_list`, `mmap_add_to_list` and
-- `us_add_to_list` hand out ranges that overlap no area of their list.
use destin_x.Prelude.{ℕ, ◌≤◌, ◌≡◌, ◌≢◌, Option, some, List, ◌∷◌, ◌++◌, length, ◌∉◌}
use destin_x.Areas.{
  Areas, Direction, up, down, mmap_start, user_stack_max, vm_add_to_list, mmap_add_to_list,
  us_add_to_list,
}
use destin_x.Areas.Spec.{IsList, spans, add}
use destin_x.Areas.Add.{Added, add_to_list-Added}
use destin_x.Areas.Disjoint.{
  Ascending, Descending, RoomAbove, RoomBelow, add-Ascending, add-Descending,
}

-- The call has returned: `xs'` holds the area `i` and those of `xs`, its spans are first fit.
pub record Grown (d : Direction) (Apart : List (ℕ × ℕ) → Type 0) (s : Areas) (i : ℕ) (xs : List ℕ)
    (out : Option Areas) : Type 0 where
  pub s' : Areas
  pub result : out ≡ some s'
  pub ys : List ℕ
  pub zs : List ℕ
  pub split : xs ≡ ys ++ zs
  pub list : IsList s' (ys ++ (i ∷ zs))
  pub first_fit : spans s' (ys ++ (i ∷ zs)) ≡ add d (s.area i).size (spans s xs)
  pub apart : Apart (spans s' (ys ++ (i ∷ zs)))

Grown-Added :
    (d : Direction) (Apart : List (ℕ × ℕ) → Type 0) (s : Areas) (i : ℕ) (xs : List ℕ)
    (out : Option Areas)
    → Added d i s xs out
    → Apart (add d (s.area i).size (spans s xs))
    → Grown d Apart s i xs out
Grown-Added d Apart s i xs out a h = record {
  s' = a.s';
  result = a.result;
  ys = a.ys;
  zs = a.zs;
  split = a.split;
  list = a.list;
  first_fit = a.seen;
  apart = rw (a.seen) h;
}

module _ (fuel : ℕ) (s : Areas) (i : ℕ) (xs : List ℕ) (l : IsList s xs) (ne : i ≢ 0) (new : i ∉ xs)
    (enough : length xs ≤ fuel) where
  -- With areas that ascend without overlap and room above each of them, `vm_add_to_list` of a new
  -- area returns: the area stands in the list at the first gap that is large enough, or at the
  -- end, no other span changes, and still no two areas overlap.
  pub vm_add_to_list-Grown :
      Ascending (spans s xs)
      → RoomAbove (s.area i).size (spans s xs)
      → Grown up Ascending s i xs (vm_add_to_list fuel i s)
  unfolding vm_add_to_list
  vm_add_to_list-Grown asc room =
      Grown-Added up Ascending s i xs _ (add_to_list-Added up i s fuel xs l ne new enough)
        (add-Ascending (s.area i).size (spans s xs) asc room)

  -- With areas that descend without overlap and room below each of them, `mmap_add_to_list` and
  -- `us_add_to_list` of a new area return: the area stands in the list at the first gap that is
  -- large enough, or at the end, no other span changes, and still no two areas overlap.
  pub mmap_add_to_list-Grown :
      Descending (spans s xs)
      → RoomBelow (s.area i).size (spans s xs)
      → Grown (down mmap_start) Descending s i xs (mmap_add_to_list fuel i s)
        × Grown (down user_stack_max) Descending s i xs (us_add_to_list fuel i s)
  unfolding mmap_add_to_list us_add_to_list
  mmap_add_to_list-Grown desc room = (
    Grown-Added (down mmap_start) Descending s i xs _
        (add_to_list-Added (down mmap_start) i s fuel xs l ne new enough)
        (add-Descending mmap_start (s.area i).size (spans s xs) desc room),
    Grown-Added (down user_stack_max) Descending s i xs _
        (add_to_list-Added (down user_stack_max) i s fuel xs l ne new enough)
        (add-Descending user_stack_max (s.area i).size (spans s xs) desc room),
  )

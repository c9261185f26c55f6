-- ===== src/Areas/Disjoint.antt =====
-- Areas in a list do not overlap, whichever way they grow.
use destin_x.Prelude.{ℕ, ◌+◌, ◌^◌, ◌≤◌, ◌<◌, inl, inr, List, [], ◌∷◌, arith, Bool-cases}
use destin_x.Areas.{Span, up, down}
use destin_x.Areas.Spec.{insert, add}

abbrev pub All : (Span → Type 0) → List Span → Type 0
All P [] = Unit {0}
All P (c ∷ rest) = P c × All P rest

All-mono : {P Q : Span → Type 0} (l : List Span) → ((c : Span) → P c → Q c) → All P l → All Q l
All-mono [] w h = tt
All-mono (c ∷ l) w h = (w c h.0, All-mono l w h.1)

-- Each span ends before every later one begins: no two of them overlap.
abbrev pub Ascending : List Span → Type 0
Ascending [] = Unit {0}
Ascending (c ∷ rest) = All (λ n. c.0 + c.1 ≤ n.0) rest × Ascending rest

-- Behind each span `size` bytes are left below 2^64.
abbrev pub RoomAbove : ℕ → List Span → Type 0
RoomAbove size = All (λ c. c.0 + c.1 + size < 2 ^ 64)

-- The same for areas whose base is their upper end.
abbrev pub Descending : List Span → Type 0
Descending [] = Unit {0}
Descending (c ∷ rest) = All (λ n. n.0 + c.1 ≤ c.0) rest × Descending rest

abbrev pub RoomBelow : ℕ → List Span → Type 0
RoomBelow size = All (λ c. (c.1 + size ≤ c.0) × (c.0 < 2 ^ 64))

module _ (size : ℕ) where
  insert-ge :
      (lo : ℕ) (c : Span) (rest : List Span)
      → lo ≤ c.0 + c.1
      → All (λ n. lo ≤ n.0) rest
      → RoomAbove size (c ∷ rest)
      → All (λ n. lo ≤ n.0) (insert up size c rest)
  unfolding insert
  insert-ge lo c [] le h room = omega arith
  insert-ge lo c (n ∷ rest) le h room = ground (arith, insert-ge lo n rest, h, room)

  insert-Ascending :
      (c : Span) (rest : List Span)
      → Ascending (c ∷ rest)
      → RoomAbove size (c ∷ rest)
      → Ascending (c ∷ insert up size c rest)
  unfolding insert
  insert-Ascending c [] asc room = omega arith
  insert-Ascending c (n ∷ rest) asc room =
      let later : All (λ m. c.0 + c.1 ≤ m.0) rest = asc.0.1 in
      elim (Bool-cases (up.fits c size n)) [
        | inl fit ↦ rw fit (
          (omega arith, asc.0),
          ((ground arith, All-mono rest (λ m h. ground arith) asc.1.0), asc.1),
        )
        | inr skip ↦ rw skip (
          (asc.0.0, insert-ge (c.0 + c.1) n rest (omega arith) later room.1),
          insert-Ascending n rest asc.1 room.1,
        )
      ]

  -- First fit upwards keeps the areas of a list in ascending order and apart, when `size` bytes
  -- are left below 2^64 behind each area.
  pub add-Ascending : (l : List Span) → Ascending l → RoomAbove size l → Ascending (add up size l)
  unfolding add
  add-Ascending [] asc room = (tt, tt)
  add-Ascending (c ∷ rest) asc room = insert-Ascending c rest asc room

module _ (from size : ℕ) where
  insert-le :
      (hi : ℕ) (k : ℕ) (c : Span) (rest : List Span)
      → c.0 + k ≤ hi
      → All (λ n. n.0 + k ≤ hi) rest
      → RoomBelow size (c ∷ rest)
      → All (λ n. n.0 + k ≤ hi) (insert (down from) size c rest)
  unfolding insert
  insert-le hi k c [] le h room = omega arith
  insert-le hi k c (n ∷ rest) le h room = ground (arith, insert-le hi k n rest, h, room)

  insert-Descending :
      (c : Span) (rest : List Span)
      → Descending (c ∷ rest)
      → RoomBelow size (c ∷ rest)
      → Descending (c ∷ insert (down from) size c rest)
  unfolding insert
  insert-Descending c [] desc room = omega arith
  insert-Descending c (n ∷ rest) desc room =
      let later : All (λ m. m.0 + c.1 ≤ c.0) rest = desc.0.1 in
      elim (Bool-cases ((down from).fits c size n)) [
        | inl fit ↦ rw fit (
          (omega arith, desc.0),
          ((ground arith, All-mono rest (λ m h. ground arith) desc.1.0), desc.1),
        )
        | inr skip ↦ rw skip (
          (desc.0.0, insert-le c.0 c.1 n rest desc.0.0 later room.1),
          insert-Descending n rest desc.1 room.1,
        )
      ]

  -- First fit downwards keeps the areas of a list in descending order and apart, when `size`
  -- bytes are left under each area.
  pub add-Descending :
      (l : List Span) → Descending l → RoomBelow size l → Descending (add (down from) size l)
  unfolding add
  add-Descending [] desc room = (tt, tt)
  add-Descending (c ∷ rest) desc room = insert-Descending c rest desc room

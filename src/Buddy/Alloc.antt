-- ===== src/Buddy/Alloc.antt =====
-- `buddy_alloc` takes a block of the order that is asked for, and loses no memory.
use destin_x.Prelude.{
  ℕ, zero, suc, ◌+◌, ◌-◌, ◌*◌, ◌%◌, ◌≤◌, ◌<◌, ◌≡◌, ◌≢◌, refl, ap, ◌∙◌, inl, inr, false, Option,
  some, List, [], ◌∷◌, arith, ◌==◌, if◌then◌else◌, update, Bool-cases, ==_iff, ==_self, length, ◌∈◌,
}
use destin_x.Links.{first}
use destin_x.Buddy.{
  Buddy, PageMetadata, max_orders, block_size, index_of, buddy_of, buddy_list_remove, split,
  take_at, take_block, search_orders, buddy_alloc,
}
use destin_x.Buddy.Address.{Aligned-lower, Aligned-upper, buddy_of-lower, block_size-suc}
use destin_x.Buddy.FreeLists.{
  IsBlock, InBlock, IsHeap, Owned, index_of-injective, InBlock-self, buddy_list_add-IsHeap,
}
use destin_x.Buddy.Remove.{buddy_list_remove-IsHeap}

-- The bytes in the free lists of the orders below `n`.
pub free_bytes : ℕ → (ℕ → List ℕ) → ℕ
free_bytes zero fl = 0
free_bytes (suc n) fl = free_bytes n fl + length (fl n) * block_size n

free_bytes-update_above :
    (n o : ℕ) (fl : ℕ → List ℕ) (l : List ℕ)
    → n ≤ o
    → free_bytes n (update fl o l) ≡ free_bytes n fl
unfolding free_bytes
free_bytes-update_above zero o fl l le = refl
free_bytes-update_above (suc n) o fl l le =
    let ne : (o == n) ≡ false = ground arith in
    rw (free_bytes-update_above n o fl l (omega arith), ne)

free_bytes-update :
    (n o : ℕ) (fl : ℕ → List ℕ) (l : List ℕ)
    → o < n
    → free_bytes n (update fl o l) + length (fl o) * block_size o
      ≡ free_bytes n fl + length l * block_size o
unfolding free_bytes
free_bytes-update zero o fl l lt = absurd (omega arith)
free_bytes-update (suc n) o fl l lt = elim (Bool-cases (o == n)) [
  | inl same ↦
      let e : o ≡ n = (==_iff o n).0 same in
      rw (same, ← e, free_bytes-update_above o o fl l (omega arith)) (omega arith)
  | inr other ↦ rw other (omega (arith, free_bytes-update n o fl l (ground arith)))
]

-- The two halves of a block.
module _ (a j : ℕ) (b : IsBlock a (suc j)) where
  lower_half : IsBlock a j
  lower_half = record {
    order_le = omega (arith, b.order_le);
    aligned = Aligned-lower a j b.aligned;
    above = b.above;
    below = omega (arith, b.below, block_size-suc j);
  }

  upper_half : IsBlock (a + block_size j) j
  upper_half = record {
    order_le = omega (arith, b.order_le);
    aligned = Aligned-upper a j b.aligned;
    above = omega (arith, b.above);
    below = omega (arith, b.below, block_size-suc j);
  }

module _ {fl : ℕ → List ℕ} (a j : ℕ) (w : Owned fl a (suc j)) where
  Owned-upper : Owned fl (a + block_size j) j
  Owned-upper = record {
    block = upper_half a j w.block;
    free_of = λ p b x i h h'. w.free_of p b x i h (omega (arith, h', block_size-suc j));
  }

  -- The lower half, once the upper one is free.
  Owned-lower : Owned (update fl j ((a + block_size j) ∷ fl j)) a j
  Owned-lower = record { block = lower_half a j w.block; free_of = free }
    where
      free :
          (p b x : ℕ)
          → b ∈ update fl j ((a + block_size j) ∷ fl j) p
          → InBlock b p x
          → ¬ InBlock a j x
      free p b x i h h' = elim (Bool-cases (j == p)) [
        | inl same ↦ elim (Bool-cases (a + block_size j == b)) [
          | inl eq ↦ let e = (==_iff _ _).0 eq in absurd (omega (arith, h, h', e))
          | inr ne ↦
              w.free_of p b x (ground (arith, i, same, ne)) h (omega (arith, h', block_size-suc j))
        ]
        | inr other ↦ w.free_of p b x (rw other at i) h (omega (arith, h', block_size-suc j))
      ]

-- The block `a` of the given order is cut off, and what was free or owned before is still there.
pub record Cut (s' : Buddy) (a order bytes : ℕ) : Type 0 where
  pub fl' : ℕ → List ℕ
  pub heap : IsHeap s' fl'
  pub owned : Owned fl' a order
  pub total : free_bytes (max_orders + 1) fl' + block_size order ≡ bytes

split-Cut :
    (rounds order a : ℕ) {s : Buddy} {fl : ℕ → List ℕ}
    → IsHeap s fl
    → Owned fl a (order + rounds)
    → Cut
        (split rounds order a s)
        a
        order
        (free_bytes (max_orders + 1) fl + block_size (order + rounds))
unfolding split
split-Cut zero order a {fl = fl} v w =
    let e : order + 0 ≡ order = omega arith in
    rw e (record { fl' = fl; heap = v; owned = rw e at w; total = refl })
split-Cut (suc rounds) order a {s = s} {fl = fl} v w =
    let j = order + rounds in
    let e : order + suc rounds ≡ suc j = omega arith in
    let w' : Owned fl a (suc j) = rw e at w in
    let up = a + block_size j in
    let at_upper : buddy_of a j ≡ up = buddy_of-lower a j w'.block.aligned in
    let step =
      split-Cut rounds order a (buddy_list_add-IsHeap v up j (Owned-upper a j w'))
        (Owned-lower a j w') in
    let bytes : free_bytes (max_orders + 1) (update fl j (up ∷ fl j)) + block_size j
        ≡ free_bytes (max_orders + 1) fl + block_size (suc j) =
      omega (
        arith,
        free_bytes-update (max_orders + 1) j fl (up ∷ fl j) (omega (arith, w'.block.order_le)),
        block_size-suc j,
      ) in
    rw (at_upper, e, ← bytes) step

-- Only the entry of the block's own page changes.
metadata-IsHeap :
    {s : Buddy} {fl : ℕ → List ℕ} (a o : ℕ) (m : PageMetadata)
    → IsHeap s fl
    → Owned fl a o
    → IsHeap (record s { metadata = update s.metadata (index_of a) m }) fl
metadata-IsHeap {s} {fl} a o m v w = record {
  heads = v.heads;
  chains = v.chains;
  blocks = v.blocks;
  apart = v.apart;
  marked = λ p q i. rw (far p q i) (v.marked p q i);
}
  where
    far : (p q : ℕ) → q ∈ fl p → (index_of a == index_of q) ≡ false
    far p q i = elim (Bool-cases (index_of a == index_of q)) [
      | inl e ↦
          let aq = index_of-injective a q o p w.block (v.blocks p q i) ((==_iff _ _).0 e) in
          absurd (w.free_of p q q i (InBlock-self q p) (rw aq (InBlock-self q o)))
      | inr ne ↦ ne
    ]

take_bytes :
    (i : ℕ) (rest : List ℕ) (a : ℕ) (fl : ℕ → List ℕ)
    → i ≤ max_orders
    → fl i ≡ a ∷ rest
    → free_bytes (max_orders + 1) (update fl i rest) + block_size i ≡ free_bytes (max_orders + 1) fl
take_bytes i rest a fl le e =
    let n : length (fl i) ≡ suc (length rest) = ap length e in
    omega (
      arith,
      free_bytes-update (max_orders + 1) i fl rest (omega arith),
      ap (λ (k : ℕ). k * block_size i) n,
    )

-- The outcome of `buddy_alloc`: a block of the order asked for, cut from a free block. What is
-- still free is in the lists, overlaps neither the block nor itself, and is smaller by the block.
pub record Allocated (s : Buddy) (fl : ℕ → List ℕ) (order : ℕ) (out : Option (ℕ × Buddy))
    : Type 0 where
  pub addr : ℕ
  pub s' : Buddy
  pub result : out ≡ some (addr, s')
  pub from : ℕ
  pub was_free : addr ∈ fl from
  pub cut : Cut s' addr order (free_bytes (max_orders + 1) fl)
  pub entry :
      ((s'.metadata (index_of addr)).order ≡ order)
      × ((s'.metadata (index_of addr)).is_free ≡ false)
      × ((s'.metadata (index_of addr)).is_slab ≡ false)

take_block-Allocated :
    (order i a : ℕ) (rest : List ℕ) {s : Buddy} {fl : ℕ → List ℕ}
    → IsHeap s fl
    → order ≤ i
    → fl i ≡ a ∷ rest
    → Allocated s fl order (some (take_block order i s))
unfolding take_block take_at
take_block-Allocated order i a rest {s} {fl} v le e =
    let at : s.free_areas i ≡ a = v.heads i ∙ ap first e in
    let (heap, owned, _) = buddy_list_remove-IsHeap v a i [] rest e in
    let sum : order + (i - order) ≡ i = omega arith in
    let c = split-Cut (i - order) order a heap (rw sum owned) in
    let s1 = split (i - order) order a (buddy_list_remove a i s) in
    let m : PageMetadata = record { order = order % 16; is_free = false; is_slab = false } in
    let i_le : i ≤ max_orders = owned.block.order_le in
    let bytes : free_bytes (max_orders + 1) (update fl i rest) + block_size (order + (i - order))
        ≡ free_bytes (max_orders + 1) fl =
      rw sum (take_bytes i (rest) (a) (fl) (i_le) e) in
    record {
      addr = a;
      s' = record s1 { metadata = update s1.metadata (index_of a) m };
      result = ap (λ (x : ℕ). some (take_at order i x s)) at;
      from = i;
      was_free = rw (e, ==_self a) refl;
      cut = record {
        fl' = c.fl';
        heap = metadata-IsHeap a order m c.heap c.owned;
        owned = c.owned;
        total = c.total ∙ bytes;
      };
      entry = (ground arith, ground arith, ground arith);
    }

search_orders-Allocated :
    (rounds order i : ℕ) {s : Buddy} {fl : ℕ → List ℕ}
    → IsHeap s fl
    → order ≤ i
    → (j : ℕ) → i ≤ j
    → j < i + rounds
    → fl j ≢ []
    → Allocated s fl order (search_orders rounds order i s)
unfolding search_orders
search_orders-Allocated zero order i v le j lo hi ne = absurd (omega arith)
search_orders-Allocated (suc rounds) order i {s} {fl} v le j lo hi ne =
    go (fl i) refl (λ (p : i < j).
      search_orders-Allocated rounds order (i + 1) v (omega arith) j (omega arith) (omega arith) ne)
  where
    here : Option (ℕ × Buddy)
    here = some (take_block order i s)

    later : Option (ℕ × Buddy)
    later = search_orders rounds order (i + 1) s

    go :
        (l : List ℕ)
        → fl i ≡ l
        → (i < j → Allocated s fl order later)
        → Allocated s fl order (if s.free_areas i == 0 then later else here)
    go [] e rest =
        let empty : s.free_areas i ≡ 0 = v.heads i ∙ ap first e in
        let past : i ≢ j = λ ij. ne (rw (← ij) e) in rw empty (rest (omega arith))
    go (a ∷ l) e rest =
        let full : (s.free_areas i == 0) ≡ false =
          let h : s.free_areas i ≡ a = v.heads i ∙ ap first e in
          let pos = (v.blocks i a (rw (e, ==_self a) refl)).above in ground (arith, h, pos) in
        rw full (take_block-Allocated order i a l v le e)

buddy_alloc_found :
    (fuel order : ℕ) (s : Buddy) {r : ℕ × Buddy}
    → search_orders (max_orders + 1 - order) order order s ≡ some r
    → buddy_alloc (suc fuel) order s ≡ some r
unfolding buddy_alloc
buddy_alloc_found fuel order s e = rw (e, buddy_alloc)

-- When some list from the asked order up to the largest one has a block, `buddy_alloc` returns a
-- block of exactly that order which was part of a free block. The lists stay well-formed, none
-- of their blocks overlaps another or the returned one, the free memory is smaller by exactly
-- the block, and the block's page is marked as used with its order.
pub buddy_alloc-Allocated :
    (fuel order j : ℕ) {s : Buddy} {fl : ℕ → List ℕ}
    → IsHeap s fl
    → order ≤ j
    → j ≤ max_orders
    → fl j ≢ []
    → Allocated s fl order (buddy_alloc (suc fuel) order s)
buddy_alloc-Allocated fuel order j {s} {fl} v lo hi ne =
    let a =
      search_orders-Allocated (max_orders + 1 - order) order order v (omega arith) j lo
        (omega arith) ne in
    record {
      addr = a.addr;
      s' = a.s';
      result = buddy_alloc_found fuel order s a.result;
      from = a.from;
      was_free = a.was_free;
      cut = a.cut;
      entry = a.entry;
    }

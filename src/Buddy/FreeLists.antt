-- ===== src/Buddy/FreeLists.antt =====
-- The free lists: what they hold, and that adding and removing a block keeps it so.
use destin_x.Prelude.{
  ℕ, ◌+◌, ◌^◌, ◌≤◌, ◌<◌, ◌≡◌, ◌≢◌, ◌⊎◌, refl, sym, ◌∙◌, inl, inr, true, false, List, [], ◌∷◌, arith,
  ◌==◌, if◌then◌else◌, update, Bool-cases, ==_iff, ==_self, has, ◌∈◌, ◌∉◌,
}
use destin_x.Links.{
  first, Chain, Chain-frame, Chain-link, Chain-not_null, ne_of_mem, if_ne, first-ne,
}
use destin_x.Buddy.{Buddy, max_orders, heap_start, block_size, index_of, buddy_list_add}
use destin_x.Buddy.Address.{Aligned, Aligned-page, block_size_pos}

-- A block of order `o` of the heap.
pub record IsBlock (a o : ℕ) : Type 0 where
  pub order_le : o ≤ max_orders
  pub aligned : Aligned a o
  pub above : heap_start ≤ a
  pub below : a + block_size o ≤ 2 ^ 64

abbrev pub InBlock : ℕ → ℕ → ℕ → Type 0
InBlock a o x = (a ≤ x) × (x < a + block_size o)

-- `fl o` are the blocks in the free list of order `o`. They are marked in the metadata, and no
-- two of them overlap.
pub record IsHeap (s : Buddy) (fl : ℕ → List ℕ) : Type 0 where
  pub heads : (o : ℕ) → s.free_areas o ≡ first (fl o)
  pub chains : (o : ℕ) → Chain s.next s.prev 0 (fl o)
  pub blocks : (o a : ℕ) → a ∈ fl o → IsBlock a o
  pub apart :
      (o p a b x : ℕ) → a ∈ fl o → b ∈ fl p → InBlock a o x → InBlock b p x → (o ≡ p) × (a ≡ b)
  pub marked :
      (o a : ℕ)
      → a ∈ fl o
      → ((s.metadata (index_of a)).is_free ≡ true) × ((s.metadata (index_of a)).order ≡ o)

-- The block is no part of any free block.
pub record Owned (fl : ℕ → List ℕ) (a o : ℕ) : Type 0 where
  pub block : IsBlock a o
  pub free_of : (p b x : ℕ) → b ∈ fl p → InBlock b p x → ¬ InBlock a o x

pub index_of-injective : (a b o p : ℕ) → IsBlock a o → IsBlock b p → index_of a ≡ index_of b → a ≡ b
index_of-injective a b o p ha hb e = omega (
  arith,
  e,
  ha.above,
  hb.above,
  Aligned-page a o ha.aligned,
  Aligned-page b p hb.aligned,
  ha.below,
  hb.below,
  block_size_pos o,
  block_size_pos p,
)

pub InBlock-self : (a o : ℕ) → InBlock a o a
InBlock-self a o = omega (arith, block_size_pos o)

module _ {s : Buddy} {fl : ℕ → List ℕ} (v : IsHeap s fl) where
  pub same_order : (o p a : ℕ) → a ∈ fl o → a ∈ fl p → o ≡ p
  same_order o p a i j = (v.apart o p a a a i j (InBlock-self a o) (InBlock-self a p)).0

  pub Owned-not_mem : (a o p : ℕ) → Owned fl a o → a ∉ fl p
  Owned-not_mem a o p w = elim (Bool-cases (has a (fl p))) [
    | inl i ↦ absurd (w.free_of p a a i (InBlock-self a p) (InBlock-self a o))
    | inr out ↦ out
  ]

  first-mem : (l : List ℕ) → first l ≢ 0 → first l ∈ l
  first-mem [] ne = absurd (ne refl)
  first-mem (x ∷ l) ne = rw (==_self x)

  -- The head of one list is in no other list.
  head_apart : (o p q : ℕ) → (o == p) ≡ false → q ∈ fl p → q ≢ 0 → first (fl o) ≢ q
  head_apart o p q op i ne e =
      let same = same_order o p q (rw (← e) (first-mem (fl o) (λ z. ne (sym e ∙ z)))) i in
      ground (arith, op, same)

module _ {s : Buddy} {fl : ℕ → List ℕ} (v : IsHeap s fl) (a o : ℕ) (w : Owned fl a o) where
  added : Buddy
  unfolding buddy_list_add
  added = buddy_list_add a o s

  ne_null : a ≢ 0
  ne_null = omega (arith, w.block.above)

  next-added : (q : ℕ) → added.next q ≡ (if a == q then first (fl o) else s.next q)
  unfolding added
  next-added q = ground (arith, v.heads o)

  prev-added :
      (q : ℕ)
      → q ≢ 0
      → added.prev q ≡ (if a == q then 0 else if first (fl o) == q then a else s.prev q)
  unfolding added
  prev-added q ne = ground (arith, v.heads o, first-ne a (fl o) ne_null (Owned-not_mem v a o o w))

  areas-added : (p : ℕ) → added.free_areas p ≡ (if o == p then a else s.free_areas p)
  unfolding added
  areas-added p = ground arith

  metadata-added : (q : ℕ) → (index_of a == q) ≡ false → added.metadata q ≡ s.metadata q
  unfolding added
  metadata-added q ne = ground (arith, ne)

  metadata-added_self :
      ((added.metadata (index_of a)).is_free ≡ true) × ((added.metadata (index_of a)).order ≡ o)
  unfolding added
  metadata-added_self = ground (arith, w.block.order_le)

  abbrev added_lists : ℕ → List ℕ
  added_lists = update fl o (a ∷ fl o)

  Chain-added_same : Chain added.next added.prev 0 (a ∷ fl o)
  Chain-added_same =
      Chain-link s.next s.prev added.next added.prev 0 a [] (fl o) (v.chains o) null ne_null
        (Owned-not_mem v a o o w) (λ e. ne_null (sym e))
        λ q i. let nq = not_null q i in (next-added q ∙ ground (arith, nq), prev-added q nq)
    where
      null : 0 ∉ fl o
      null = Chain-not_null s.next s.prev 0 (fl o) (v.chains o)

      not_null : (q : ℕ) → q ∈ (a ∷ fl o) → q ≢ 0
      not_null q i e = ne_of_mem 0 q (a ∷ fl o) (ground (arith, ne_null, null)) i (sym e)

  Chain-added_other : (p : ℕ) → (o == p) ≡ false → Chain added.next added.prev 0 (fl p)
  Chain-added_other p op =
      Chain-frame s.next s.prev added.next added.prev 0 (fl p)
        (λ q i.
          let nq : q ≢ 0 = λ e.
            ne_of_mem 0 q (fl p) (Chain-not_null s.next s.prev 0 (fl p) (v.chains p)) i (sym e) in
          let aq = ne_of_mem a q (fl p) (Owned-not_mem v a o p w) i in
          (
            next-added q ∙ if_ne a q _ _ aq,
            prev-added q nq
                ∙ if_ne a q _ _ aq
                ∙ if_ne (first (fl o)) q _ _ (head_apart v o p q op i nq),
          ))
        (v.chains p)

  -- A block of the new lists is the added one, or an old one, of another order or address.
  added_cases : (p q : ℕ) → q ∈ added_lists p → ((o ≡ p) × (a ≡ q)) ⊎ ((q ∈ fl p) × (a ≢ q))
  added_cases p q i = elim (Bool-cases (a == q)) [
    | inl aq ↦ elim (Bool-cases (o == p)) [
      | inl op ↦ inl (ground arith, ground arith)
      | inr op ↦ absurd (ne_of_mem a q (fl p) (Owned-not_mem v a o p w) (rw op at i) (ground arith))
    ]
    | inr aq ↦ inr (elim (Bool-cases (o == p)) [
      | inl op ↦ (ground (arith, i, op, aq), ground arith)
      | inr op ↦ (rw op at i, ground arith)
    ])
  ]

  blocks-added : (p q : ℕ) → q ∈ added_lists p → IsBlock q p
  blocks-added p q i = elim (added_cases p q i) [
    | inl (op, aq) ↦ rw (← op, ← aq) w.block
    | inr (old, aq) ↦ v.blocks p q old
  ]

  apart-added :
      (p p' q q' x : ℕ)
      → q ∈ added_lists p
      → q' ∈ added_lists p'
      → InBlock q p x
      → InBlock q' p' x
      → (p ≡ p') × (q ≡ q')
  apart-added p p' q q' x i i' h h' = elim (added_cases p q i) [
    | inl (op, aq) ↦ elim (added_cases p' q' i') [
      | inl (op', aq') ↦ (sym op ∙ op', sym aq ∙ aq')
      | inr (old', _) ↦ absurd (w.free_of p' q' x old' h' (rw (op, aq) h))
    ]
    | inr (old, _) ↦ elim (added_cases p' q' i') [
      | inl (op', aq') ↦ absurd (w.free_of p q x old h (rw (op', aq') h'))
      | inr (old', _) ↦ v.apart p p' q q' x old old' h h'
    ]
  ]

  marked-added :
      (p q : ℕ)
      → q ∈ added_lists p
      → ((added.metadata (index_of q)).is_free ≡ true) × ((added.metadata (index_of q)).order ≡ p)
  marked-added p q i = elim (added_cases p q i) [
    | inl (op, aq) ↦ rw (← op, ← aq) metadata-added_self
    | inr (old, aq) ↦
        let far : (index_of a == index_of q) ≡ false = other q p old aq in
        rw (metadata-added (index_of q) far) (v.marked p q old)
  ]
    where
      other : (q p : ℕ) → q ∈ fl p → a ≢ q → (index_of a == index_of q) ≡ false
      other q p old aq = elim (Bool-cases (index_of a == index_of q)) [
        | inl e ↦
            absurd (aq (index_of-injective a q o p w.block (v.blocks p q old) ((==_iff _ _).0 e)))
        | inr ne ↦ ne
      ]

  -- `buddy_list_add` of a block that is part of no free block puts it at the head of its list.
  pub buddy_list_add-IsHeap : IsHeap (buddy_list_add a o s) (update fl o (a ∷ fl o))
  unfolding added
  buddy_list_add-IsHeap = record {
    heads = λ p. areas-added p ∙ heads_cases p (Bool-cases (o == p));
    chains = λ p. chains_cases p (Bool-cases (o == p));
    blocks = blocks-added;
    apart = apart-added;
    marked = marked-added;
  }
    where
      heads_cases :
          (p : ℕ)
          → ((o == p) ≡ true) ⊎ ((o == p) ≡ false)
          → (if o == p then a else s.free_areas p) ≡ first (added_lists p)
      heads_cases p (inl op) = rw op
      heads_cases p (inr op) = rw op (v.heads p)

      chains_cases :
          (p : ℕ)
          → ((o == p) ≡ true) ⊎ ((o == p) ≡ false)
          → Chain added.next added.prev 0 (added_lists p)
      chains_cases p (inl op) = rw op Chain-added_same
      chains_cases p (inr op) = rw op (Chain-added_other p op)

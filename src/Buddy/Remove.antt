-- ===== src/Buddy/Remove.antt =====
-- Taking a block out of its free list.
use destin_x.Prelude.{
  ℕ, ◌≡◌, ◌≢◌, ◌⊎◌, refl, sym, ap, ◌∙◌, inl, inr, true, false, ◌&&◌, List, [], ◌∷◌, ◌++◌, arith,
  ◌==◌, if◌then◌else◌, update, Bool-cases, ==_iff, ==_self, ◌∈◌, ◌∉◌, has-append,
}
use destin_x.Links.{
  first, last, Chain, Chain-frame, Chain-unlink, Chain-not_null, Chain-prev, Chain-next, ne_of_mem,
  if_ne, last-ne, not-mem-append, not-mem_of_middle,
}
use destin_x.Buddy.{Buddy, index_of, buddy_list_remove}
use destin_x.Buddy.FreeLists.{IsHeap, Owned, index_of-injective, same_order}
use mathlib.Core.Bool.{false≢true}

mem_middle : (a : ℕ) (xs ys : List ℕ) → a ∈ (xs ++ (a ∷ ys))
mem_middle a xs ys = ground (arith, has-append a xs (a ∷ ys))

mem_of_rest : (q a : ℕ) (xs ys : List ℕ) → q ∈ (xs ++ ys) → q ∈ (xs ++ (a ∷ ys))
mem_of_rest q a xs ys i = ground (arith, has-append q xs ys, has-append q xs (a ∷ ys))

last-mem : (b x : ℕ) (xs : List ℕ) → last x xs ∈ (x ∷ xs)
last-mem b x [] = rw (==_self x)
last-mem b x (y ∷ ys) = rw (last-mem b y ys) (ground arith)

mem_of_left : (q a : ℕ) (xs ys : List ℕ) → q ∈ xs → q ∈ (xs ++ (a ∷ ys))
mem_of_left q a xs ys i = rw (has-append q xs (a ∷ ys), i)

first-mem : (l : List ℕ) → first l ≢ 0 → first l ∈ l
first-mem [] ne = absurd (ne refl)
first-mem (x ∷ l) ne = rw (==_self x)

last_mem_null : (l : List ℕ) → last 0 l ≢ 0 → last 0 l ∈ l
last_mem_null [] ne = absurd (ne refl)
last_mem_null (x ∷ l) ne = last-mem 0 x l

once : (n v : ℕ → ℕ) (b a : ℕ) (xs ys : List ℕ) → Chain n v b (xs ++ (a ∷ ys)) → (a ∉ xs) × (a ∉ ys)
once n v b a [] ys c = (refl, c.3)
once n v b a (z ∷ xs) ys c =
    let (ox, oy) = once n v z a xs ys c.4 in
    (ground (arith, ox, (not-mem_of_middle z xs a ys c.3).1), oy)

new_head :
    (pv nx h a : ℕ) (xs ys : List ℕ)
    → pv ≡ last 0 xs
    → nx ≡ first ys
    → h ≡ first (xs ++ (a ∷ ys))
    → 0 ∉ xs
    → (if pv == 0 then nx else h) ≡ first (xs ++ ys)
new_head pv nx h a [] ys ep en eh out = rw ep en
new_head pv nx h a (z ∷ xs) ys ep en eh out =
    if_ne pv 0 nx h (λ e. last-ne 0 z xs out (sym ep ∙ e)) ∙ eh

module _ {s : Buddy} {fl : ℕ → List ℕ} (v : IsHeap s fl) (a o : ℕ) (xs ys : List ℕ)
    (e : fl o ≡ xs ++ (a ∷ ys)) where
  removed : Buddy
  unfolding buddy_list_remove
  removed = buddy_list_remove a o s

  here : Chain s.next s.prev 0 (xs ++ (a ∷ ys))
  here = rw (← e) (v.chains o)

  mine : a ∈ fl o
  mine = rw e (mem_middle a xs ys)

  ne_null : a ≢ 0
  ne_null = omega (arith, (v.blocks o a mine).above)

  null : (p : ℕ) → 0 ∉ fl p
  null p = Chain-not_null s.next s.prev 0 (fl p) (v.chains p)

  next_is : s.next a ≡ first ys
  next_is = Chain-next s.next s.prev 0 a xs ys here

  prev_is : s.prev a ≡ last 0 xs
  prev_is = Chain-prev s.next s.prev 0 a xs ys here

  next-removed : (q : ℕ) → q ≢ 0 → removed.next q ≡ (if s.prev a == q then s.next a else s.next q)
  unfolding removed
  next-removed q ne = ground (arith, ne)

  prev-removed : (q : ℕ) → q ≢ 0 → removed.prev q ≡ (if s.next a == q then s.prev a else s.prev q)
  unfolding removed
  prev-removed q ne = ground (arith, ne)

  areas-removed :
      (p : ℕ)
      → removed.free_areas p ≡ (if (o == p) && (s.prev a == 0) then s.next a else s.free_areas p)
  unfolding removed
  areas-removed p = ground arith

  metadata-removed : (q : ℕ) → (index_of a == q) ≡ false → removed.metadata q ≡ s.metadata q
  unfolding removed
  metadata-removed q ne = ground (arith, ne)

  metadata-removed_self : (removed.metadata (index_of a)).is_free ≡ false
  unfolding removed
  metadata-removed_self = ground arith

  abbrev left : ℕ → List ℕ
  left = update fl o (xs ++ ys)

  -- A block that is left was there before, and is not the removed one.
  left_cases : (p q : ℕ) → q ∈ left p → (q ∈ fl p) × (a ≢ q)
  left_cases p q i = elim (Bool-cases (o == p)) [
    | inl op ↦
        let j : q ∈ (xs ++ ys) = rw op at i in
        let (ox, oy) = once s.next s.prev 0 a xs ys here in
        (
          rw (← ((==_iff o p).0 op), e) (mem_of_rest q a xs ys j),
          ne_of_mem a q (xs ++ ys) (not-mem-append a xs ys ox oy) j,
        )
    | inr op ↦
        let j : q ∈ fl p = rw op at i in
        (j, λ aq. false≢true (sym op ∙ (==_iff o p).1 (same_order v o p a mine (rw aq j))))
  ]

  next-mem : s.next a ≢ 0 → s.next a ∈ fl o
  next-mem ne =
      rw (next_is, e)
        (mem_of_rest (first ys) a xs ys
          (in_right (first ys) xs ys (first-mem ys (rw (← next_is) ne))))
    where
      in_right : (q : ℕ) (xs ys : List ℕ) → q ∈ ys → q ∈ (xs ++ ys)
      in_right q xs ys i = ground (arith, has-append q xs ys)

  prev-mem : s.prev a ≢ 0 → s.prev a ∈ fl o
  prev-mem ne =
      rw (prev_is, e) (mem_of_left (last 0 xs) a xs ys (last_mem_null xs (rw (← prev_is) ne)))

  Chain-removed_same : Chain removed.next removed.prev 0 (xs ++ ys)
  Chain-removed_same =
      let out : 0 ∉ (xs ++ (a ∷ ys)) = rw (← e) (null o) in
      Chain-unlink s.next s.prev removed.next removed.prev 0 a xs ys here out λ q i.
        let nq : q ≢ 0 =
          λ z. ne_of_mem 0 q (xs ++ (a ∷ ys)) out (mem_of_rest q a xs ys i) (sym z) in
        (next-removed q nq, prev-removed q nq)

  Chain-removed_other : (p : ℕ) → (o == p) ≡ false → Chain removed.next removed.prev 0 (fl p)
  Chain-removed_other p op =
      Chain-frame s.next s.prev removed.next removed.prev 0 (fl p)
        (λ q i.
          let nq : q ≢ 0 = λ z. ne_of_mem 0 q (fl p) (null p) i (sym z) in
          let far : (n : ℕ) → (n ≢ 0 → n ∈ fl o) → n ≢ q = λ n mem z. false≢true (
            sym op
            ∙ (==_iff o p).1 (same_order v o p q (rw (← z) (mem (λ z0. nq (sym z ∙ z0)))) i)) in
          (
            next-removed q nq ∙ if_ne (s.prev a) q _ _ (far (s.prev a) prev-mem),
            prev-removed q nq ∙ if_ne (s.next a) q _ _ (far (s.next a) next-mem),
          ))
        (v.chains p)

  heads-removed : (p : ℕ) → removed.free_areas p ≡ first (left p)
  heads-removed p = areas-removed p ∙ head_cases (Bool-cases (o == p))
    where
      out : 0 ∉ xs
      out = (not-mem_of_middle 0 xs a ys (rw (← e) (null o))).0

      head_cases :
          ((o == p) ≡ true) ⊎ ((o == p) ≡ false)
          → (if (o == p) && (s.prev a == 0) then s.next a else s.free_areas p) ≡ first (left p)
      head_cases (inl op) = rw op (
          new_head (s.prev a) (s.next a) (s.free_areas p) a xs ys prev_is next_is
            (ap s.free_areas (sym ((==_iff o p).0 op)) ∙ v.heads o ∙ ap first e) out)
      head_cases (inr op) = rw op (v.heads p)

  -- `buddy_list_remove` of a block of a free list takes out that block and no other. It is then
  -- part of no free block, and its page is marked as not free.
  pub buddy_list_remove-IsHeap :
      IsHeap (buddy_list_remove a o s) (update fl o (xs ++ ys))
      × Owned (update fl o (xs ++ ys)) a o
      × (((buddy_list_remove a o s).metadata (index_of a)).is_free ≡ false)
  unfolding removed
  buddy_list_remove-IsHeap = (
    record {
      heads = heads-removed;
      chains = λ p. chains_cases p (Bool-cases (o == p));
      blocks = λ p q i. v.blocks p q (left_cases p q i).0;
      apart = λ p p' q q' x i i' h h'.
          v.apart p p' q q' x (left_cases p q i).0 (left_cases p' q' i').0 h h';
      marked = λ p q i.
          let (old, aq) = left_cases p q i in
          rw (metadata-removed (index_of q) (other q p old aq)) (v.marked p q old);
    },
    record {
      block = v.blocks o a mine;
      free_of =
          λ p b x i h h'. (left_cases p b i).1 (v.apart o p a b x mine (left_cases p b i).0 h' h).1;
    },
    metadata-removed_self,
  )
    where
      chains_cases :
          (p : ℕ)
          → ((o == p) ≡ true) ⊎ ((o == p) ≡ false)
          → Chain removed.next removed.prev 0 (left p)
      chains_cases p (inl op) = rw op Chain-removed_same
      chains_cases p (inr op) = rw op (Chain-removed_other p op)

      other : (q p : ℕ) → q ∈ fl p → a ≢ q → (index_of a == index_of q) ≡ false
      other q p old aq = elim (Bool-cases (index_of a == index_of q)) [
        | inl ie ↦ absurd (
            aq (
              index_of-injective a q o p (v.blocks o a mine) (v.blocks p q old)
                ((==_iff _ _).0 ie)))
        | inr ne ↦ ne
      ]

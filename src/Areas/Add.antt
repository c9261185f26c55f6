-- ===== src/Areas/Add.antt =====
-- Adding an area to a list is first fit on its spans.
use destin_x.Prelude.{
  ℕ, zero, suc, ◌≤◌, ◌<◌, ◌≡◌, ◌≢◌, refl, sym, ap, ◌∙◌, inl, inr, false, Option, some, List, [],
  ◌∷◌, ◌++◌, arith, ◌==◌, if◌then◌else◌, Bool-cases, length, ◌∈◌, ◌∉◌,
}
use mathlib.Core.Path.{ap₂}
use destin_x.Links.{
  first, last, Chain, Chain-link, Chain-not_null, ne_of_mem, if_ne, first-ne, last-ne,
  not-mem-append, not-mem_of_append,
}
use destin_x.Areas.{
  Span, Areas, Direction, span, next_of, prev_of, place, link_after, add_loop, add_to_list,
}
use destin_x.Areas.Spec.{IsList, spans, insert, add}

==_ne : (a b : ℕ) → a ≢ b → (a == b) ≡ false
==_ne a b ne = ground (arith, ne)

spans-append : (s : Areas) (xs ys : List ℕ) → spans s (xs ++ ys) ≡ spans s xs ++ spans s ys
spans-append s [] ys = refl
spans-append s (x ∷ xs) ys = ap (λ (l : List Span). span s x ∷ l) (spans-append s xs ys)

spans-frame :
    (s s' : Areas) (xs : List ℕ)
    → ((a : ℕ) → a ∈ xs → span s' a ≡ span s a)
    → spans s' xs ≡ spans s xs
spans-frame s s' [] same = refl
spans-frame s s' (x ∷ xs) same =
    rw (same x (ground arith))
      (ap (λ (l : List Span). span s x ∷ l) (spans-frame s s' xs (λ a m. same a (ground arith))))

module _ (d : Direction) (i : ℕ) (s : Areas) where
  abbrev size : ℕ
  size = (s.area i).size

  -- Where the loop stops behind the node `c` with the nodes `rest` after it.
  record Stop (c : ℕ) (rest : List ℕ) (out : Option Areas) : Type 0 where
    ys : List ℕ
    zs : List ℕ
    split : rest ≡ ys ++ zs
    result : out ≡ some (link_after d (last c ys) i (first zs) s)
    seen :
        insert d size (span s c) (spans s rest)
        ≡ spans s ys ++ ((d.edge (span s (last c ys)), size) ∷ spans s zs)

  add_loop-Stop :
      (fuel c b : ℕ) (rest : List ℕ)
      → Chain (next_of s) (prev_of s) b (c ∷ rest)
      → length rest < fuel
      → Stop c rest (add_loop d fuel c i s)
  unfolding add_loop insert
  add_loop-Stop zero c b rest ch enough = absurd (omega arith)
  add_loop-Stop (suc fuel) c b [] (ne, pv, nx, out, ch) enough = record {
    ys = [];
    zs = [];
    split = refl;
    result = rw nx;
    seen = refl;
  }
  add_loop-Stop (suc fuel) c b (n ∷ rest) (ne, pv, nx, out, ch) enough =
      elim (Bool-cases (d.fits (span s c) size (span s n))) [
        | inl fit ↦ record {
          ys = [];
          zs = n ∷ rest;
          split = refl;
          result = rw (nx, (==_ne n 0 ch.0), fit);
          seen = rw fit;
        }
        | inr skip ↦
            let w = add_loop-Stop fuel n c rest ch (omega arith) in
            record {
              ys = n ∷ w.ys;
              zs = w.zs;
              split = ap (λ (l : List ℕ). n ∷ l) w.split;
              result = rw (nx, (==_ne n 0 ch.0), skip) w.result;
              seen = rw (skip) (ap (λ (l : List Span). span s n ∷ l) w.seen);
            }
      ]

  -- The list after the call, and its spans.
  pub record Added (xs : List ℕ) (out : Option Areas) : Type 0 where
    pub s' : Areas
    pub result : out ≡ some s'
    pub ys : List ℕ
    pub zs : List ℕ
    pub split : xs ≡ ys ++ zs
    pub list : IsList s' (ys ++ (i ∷ zs))
    pub seen : spans s' (ys ++ (i ∷ zs)) ≡ add d size (spans s xs)

  module _ (c n : ℕ) (ci : c ≢ i) (ni : n ≢ i) where
    after : Areas
    unfolding link_after
    after = link_after d c i n s

    next_of-after :
        (a : ℕ) → next_of after a ≡ (if i == a then n else if c == a then i else next_of s a)
    unfolding after
    next_of-after a = ground (arith, ci, ni)

    prev_of-after :
        (a : ℕ)
        → a ≢ 0
        → prev_of after a ≡ (if i == a then c else if n == a then i else prev_of s a)
    unfolding after
    prev_of-after a ne = ground (arith, ci, ni)

    head-after : after.head ≡ s.head
    unfolding after
    head-after = ground arith

    base-after :
        (a : ℕ) → (after.area a).base ≡ (if i == a then d.edge (span s c) else (s.area a).base)
    unfolding after
    base-after a = ground (arith, ci, ni)

    size-after : (a : ℕ) → (after.area a).size ≡ (s.area a).size
    unfolding after
    size-after a = ground (arith, ci, ni)

    span-after : (a : ℕ) → i ≢ a → span after a ≡ span s a
    span-after a ne = ground (arith, base-after a, size-after a, ne)

    span-after_self : span after i ≡ (d.edge (span s c), size)
    span-after_self = ground (arith, base-after i, size-after i)

  spans-after :
      (c n : ℕ) (ci : c ≢ i) (ni : n ≢ i) (ys zs : List ℕ)
      → i ∉ ys
      → i ∉ zs
      → spans (after c n ci ni) (ys ++ (i ∷ zs))
        ≡ spans s ys ++ ((d.edge (span s c), size) ∷ spans s zs)
  spans-after c n ci ni ys zs iy iz =
      spans-append s' ys (i ∷ zs)
      ∙ ap₂ ◌++◌ (same ys iy) (ap₂ ◌∷◌ (span-after_self c n ci ni) (same zs iz))
    where
      s' : Areas
      s' = after c n ci ni

      same : (l : List ℕ) → i ∉ l → spans s' l ≡ spans s l
      same l out = spans-frame s s' l (λ a m. span-after c n ci ni a (ne_of_mem i a l out m))

  -- Linking `i` in behind the area that the search has found gives a list.
  after-IsList :
      (c : ℕ) (ys zs : List ℕ) (ci : last c ys ≢ i) (ni : first zs ≢ i)
      → IsList s (c ∷ (ys ++ zs))
      → i ≢ 0
      → i ∉ (c ∷ (ys ++ zs))
      → IsList (after (last c ys) (first zs) ci ni) (c ∷ (ys ++ (i ∷ zs)))
  after-IsList c ys zs ci ni l ne new = record {
    head = head-after (last c ys) (first zs) ci ni ∙ l.head;
    chain =
        Chain-link (next_of s) (prev_of s) _ _ 0 i (c ∷ ys) zs l.chain null ne new (λ e. ne (sym e))
          (λ a m. (
            next_of-after (last c ys) (first zs) ci ni a,
            prev_of-after (last c ys) (first zs) ci ni a (not_null a m),
          ));
  }
    where
      null : 0 ∉ (c ∷ (ys ++ zs))
      null = Chain-not_null (next_of s) (prev_of s) 0 (c ∷ (ys ++ zs)) l.chain

      not_null : (a : ℕ) → a ∈ (c ∷ (ys ++ (i ∷ zs))) → a ≢ 0
      not_null a m e =
          ne_of_mem 0 a (c ∷ (ys ++ (i ∷ zs)))
            (not-mem-append 0 (c ∷ ys) (i ∷ zs) (not-mem_of_append 0 (c ∷ ys) zs null).0
              (ground (arith, ne, (not-mem_of_append 0 (c ∷ ys) zs null).1)))
            m (sym e)

  add_to_list-cons :
      (fuel c : ℕ) → s.head ≡ c → c ≢ 0 → add_to_list d fuel i s ≡ add_loop d fuel c i s
  unfolding add_to_list
  add_to_list-cons fuel c e ne =
      if_ne s.head 0 _ (add_loop d fuel s.head i s) (λ z. ne (sym e ∙ z))
      ∙ ap (λ (h : ℕ). add_loop d fuel h i s) e

  -- Adding a new area to a list always returns, links it in, and is first fit on the spans.
  pub add_to_list-Added :
      (fuel : ℕ) (xs : List ℕ)
      → IsList s xs
      → i ≢ 0
      → i ∉ xs
      → length xs ≤ fuel
      → Added xs (add_to_list d fuel i s)
  unfolding add_to_list add after
  add_to_list-Added fuel [] l ne new enough = record {
    s' = record (place i d.start 0 0 s) { head = i };
    result = rw (l.head);
    ys = [];
    zs = [];
    split = refl;
    list = record { head = refl; chain = (ne, ground arith, ground arith, refl, tt) };
    seen = ground arith;
  }
  add_to_list-Added fuel (c ∷ rest) l ne new enough =
      let w = add_loop-Stop fuel c 0 rest l.chain (omega arith) in
      let l' : IsList s (c ∷ (w.ys ++ w.zs)) = rw (← w.split) l in
      let new' : i ∉ (c ∷ (w.ys ++ w.zs)) = rw (← w.split) new in
      let (iys, izs) = not-mem_of_append i (c ∷ w.ys) w.zs new' in
      let ci = last-ne i c w.ys iys in
      let ni = first-ne i w.zs ne izs in
      record {
        s' = after (last c w.ys) (first w.zs) ci ni;
        result = add_to_list-cons fuel c l.head l.chain.0 ∙ w.result;
        ys = c ∷ w.ys;
        zs = w.zs;
        split = ap (λ (l : List ℕ). c ∷ l) w.split;
        list = after-IsList c w.ys w.zs ci ni l' ne new';
        seen =
            spans-after (last c w.ys) (first w.zs) ci ni (c ∷ w.ys) w.zs iys izs
            ∙ ap (λ (l : List Span). span s c ∷ l) (sym w.seen);
      }

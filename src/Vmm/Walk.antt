-- ===== src/Vmm/Walk.antt =====
-- `vmm_map_page` and the two functions that walk the tables: `vmm_get_paddr` and `vmm_unmap_page`.
use destin_x.Prelude.{
  ℕ, ◌/◌, ◌%◌, ◌^◌, ◌<◌, ◌≡◌, ◌≢◌, refl, sym, ap, ◌∙◌, true, false, some, arith, update, bit_or,
}
use destin_x.Vmm.{
  Vmm, page_size_4kb, is_present, is_large, page_of, pml4_indx, pdpt_indx, pd_indx, pt_indx, cell,
  set_word, provide, vmm_map_page, vmm_get_entry, vmm_unmap_page, vmm_get_paddr, read_entry,
  unmap_entry,
}
use destin_x.Vmm.Entry.{bit_or-page, bit_or-flags}
use destin_x.Vmm.Tables.{
  IsPage, cell-apart, same_word, other_word, Provided, provide-Provided, page_of-IsPage,
}

-- The walk finds the entry in the last table.
get_entry-found :
    (pml4 t3 t2 t1 vaddr : ℕ) (v : Vmm)
    → (is_present (v.word (cell pml4 (pml4_indx vaddr))) ≡ true)
      × (is_large (v.word (cell pml4 (pml4_indx vaddr))) ≡ false)
      × (page_of (v.word (cell pml4 (pml4_indx vaddr))) ≡ t3)
    → (is_present (v.word (cell t3 (pdpt_indx vaddr))) ≡ true)
      × (is_large (v.word (cell t3 (pdpt_indx vaddr))) ≡ false)
      × (page_of (v.word (cell t3 (pdpt_indx vaddr))) ≡ t2)
    → (is_present (v.word (cell t2 (pd_indx vaddr))) ≡ true)
      × (is_large (v.word (cell t2 (pd_indx vaddr))) ≡ false)
      × (page_of (v.word (cell t2 (pd_indx vaddr))) ≡ t1)
    → vmm_get_entry pml4 vaddr v ≡ some (cell t1 (pt_indx vaddr), 0)
unfolding vmm_get_entry
get_entry-found pml4 t3 t2 t1 vaddr v (p4, l4, e4) (p3, l3, e3) (p2, l2, e2) =
    rw (p4, l4, e4, p3, l3, e3, p2, l2, e2) refl

paddr_of_entry :
    (pml4 vaddr a : ℕ) (v : Vmm)
    → vmm_get_entry pml4 vaddr v ≡ some (a, 0)
    → vmm_get_paddr pml4 vaddr v ≡ some (page_of (v.word a))
unfolding vmm_get_paddr
paddr_of_entry pml4 vaddr a v e = ap (read_entry v) e

unmap_of_entry :
    (pml4 vaddr a : ℕ) (v : Vmm)
    → vmm_get_entry pml4 vaddr v ≡ some (a, 0)
    → vmm_unmap_page pml4 vaddr v ≡ (page_of (v.word a), set_word a 0 v)
unfolding vmm_unmap_page
unmap_of_entry pml4 vaddr a v e = ap (unmap_entry v) e

update_twice : (f : ℕ → ℕ) (a x y q : ℕ) → update (update f a x) a y q ≡ update f a y q
update_twice f a x y q = ground arith

module _ (flags pml4 vaddr : ℕ) (v : Vmm) where
  abbrev pub c4 : ℕ
  c4 = cell pml4 (pml4_indx vaddr)

  unfoldable pub s1 : Vmm
  s1 = provide flags c4 v

  unfoldable pub t3 : ℕ
  t3 = page_of (s1.word c4)

  abbrev pub c3 : ℕ
  c3 = cell t3 (pdpt_indx vaddr)

  unfoldable pub s2 : Vmm
  s2 = provide flags c3 s1

  unfoldable pub t2 : ℕ
  t2 = page_of (s2.word c3)

  abbrev pub c2 : ℕ
  c2 = cell t2 (pd_indx vaddr)

  unfoldable pub s3 : Vmm
  s3 = provide flags c2 s2

  unfoldable pub t1 : ℕ
  t1 = page_of (s3.word c2)

  abbrev pub c1 : ℕ
  c1 = cell t1 (pt_indx vaddr)

  -- The four tables on the way to `vaddr` are different pages, and no entry on the way is a large page.
  pub record Walks : Type 0 where
    pub small : (a : ℕ) → v.word a < 2 ^ 64
    pub root : IsPage pml4
    pub apart : (pml4 ≢ t3) × (pml4 ≢ t2) × (pml4 ≢ t1) × (t3 ≢ t2) × (t3 ≢ t1) × (t2 ≢ t1)
    pub large4 : is_large (s1.word c4) ≡ false
    pub large3 : is_large (s2.word c3) ≡ false
    pub large2 : is_large (s3.word c2) ≡ false

  module _ (h : Walks) where
    p1 : Provided c4 v s1
    unfolding s1
    p1 = provide-Provided flags c4 v h.small

    p2 : Provided c3 s1 s2
    unfolding s2
    p2 = provide-Provided flags c3 s1 p1.small

    p3 : Provided c2 s2 s3
    unfolding s3
    p3 = provide-Provided flags c2 s2 p2.small

    page3 : IsPage t3
    unfolding t3
    page3 = page_of-IsPage (s1.word c4) (p1.small c4)

    page2 : IsPage t2
    unfolding t2
    page2 = page_of-IsPage (s2.word c3) (p2.small c3)

    page1 : IsPage t1
    unfolding t1
    page1 = page_of-IsPage (s3.word c2) (p3.small c2)

    indx : (x : ℕ) → x % 512 < 512
    indx x = omega arith

    away : (p q x y : ℕ) → IsPage p → IsPage q → p ≢ q → cell p (x % 512) ≢ cell q (y % 512)
    away p q x y hp hq ne = cell-apart p q (x % 512) (y % 512) hp hq ne (indx x) (indx y)

    abbrev other_way : (a b : ℕ) → a ≢ b → b ≢ a
    other_way a b ne = λ e. ne (sym e)

    -- The entries above are those of the last state.
    keeps4 : (x : ℕ) → (set_word c1 x s3).word c4 ≡ s1.word c4
    unfolding t2 t1
    keeps4 x =
        let (n3, n2, n1, _, _, _) = h.apart in
        let i4 = indx (vaddr / 2 ^ 39) in
        other_word s3.word c1 x c4
          (away t1 pml4 (vaddr / 2 ^ 12) (vaddr / 2 ^ 39) page1 h.root (other_way pml4 t1 n1))
        ∙ p3.other pml4 (pml4_indx vaddr) h.root i4
            (away t2 pml4 (vaddr / 2 ^ 21) (vaddr / 2 ^ 39) page2 h.root (other_way pml4 t2 n2))
            (other_way pml4 t1 n1)
        ∙ p2.other pml4 (pml4_indx vaddr) h.root i4
            (away t3 pml4 (vaddr / 2 ^ 30) (vaddr / 2 ^ 39) page3 h.root (other_way pml4 t3 n3))
            (other_way pml4 t2 n2)

    keeps3 : (x : ℕ) → (set_word c1 x s3).word c3 ≡ s2.word c3
    unfolding t1
    keeps3 x =
        let (_, _, _, n2, n1, _) = h.apart in
        other_word s3.word c1 x c3
          (away t1 t3 (vaddr / 2 ^ 12) (vaddr / 2 ^ 30) page1 page3 (other_way t3 t1 n1))
        ∙ p3.other t3 (pdpt_indx vaddr) page3 (indx (vaddr / 2 ^ 30))
            (away t2 t3 (vaddr / 2 ^ 21) (vaddr / 2 ^ 30) page2 page3 (other_way t3 t2 n2))
            (other_way t3 t1 n1)

    keeps2 : (x : ℕ) → (set_word c1 x s3).word c2 ≡ s3.word c2
    keeps2 x =
        let (_, _, _, _, _, n1) = h.apart in
        other_word s3.word c1 x c2
          (away t1 t2 (vaddr / 2 ^ 12) (vaddr / 2 ^ 21) page1 page2 (other_way t2 t1 n1))

    entry : (x : ℕ) → vmm_get_entry pml4 vaddr (set_word c1 x s3) ≡ some (c1, 0)
    unfolding t1 t2 t3
    entry x =
        get_entry-found pml4 t3 t2 t1 vaddr (set_word c1 x s3)
          (rw (keeps4 x) (p1.present, h.large4, refl)) (rw (keeps3 x) (p2.present, h.large3, refl))
          (rw (keeps2 x) (p3.present, h.large2, refl))

    paddr_found : (x : ℕ) → vmm_get_paddr pml4 vaddr (set_word c1 x s3) ≡ some (page_of x)
    paddr_found x =
        paddr_of_entry pml4 vaddr c1 (set_word c1 x s3) (entry x)
        ∙ ap (λ (y : ℕ). some (page_of y)) (same_word s3.word c1 x)

    unmapped :
        (x : ℕ) → vmm_unmap_page pml4 vaddr (set_word c1 x s3) ≡ (page_of x, set_word c1 0 s3)
    unmapped x = unmap_of_entry pml4 vaddr c1 (set_word c1 x s3) (entry x) ∙ (λ i. (
      page_of (same_word s3.word c1 x i),
      record { word = λ q. update_twice s3.word c1 x 0 q i; pmm = s3.pmm },
    ))

    mapped :
        (paddr : ℕ)
        → vmm_map_page pml4 paddr vaddr page_size_4kb flags v
          ≡ set_word c1 (bit_or paddr (bit_or 1 flags)) s3
    unfolding vmm_map_page s1 s2 s3 t1 t2 t3
    mapped paddr = refl

entry_page :
    (paddr flags : ℕ)
    → paddr % 4096 ≡ 0
    → flags < 4096
    → page_of (bit_or paddr (bit_or 1 flags)) ≡ paddr
entry_page paddr flags al small =
    let low = bit_or-flags flags in
    let below : bit_or 1 flags < 4096 = omega (arith, low, small) in
    rw (bit_or-page paddr (bit_or 1 flags) al below) (omega (arith, al, below))

-- What `vmm_map_page` maps for a page of 4 KiB is found again: `vmm_get_paddr` gives the physical page,
-- `vmm_unmap_page` returns it, and after that `vmm_get_paddr` gives 0. The physical address stands on
-- a page boundary, the flags are below bit 12, the tables on the way are different pages and no entry on the
-- way is a large page.
pub vmm_get_paddr-vmm_map_page :
    (flags pml4 paddr vaddr : ℕ) (v : Vmm)
    → Walks flags pml4 vaddr v
    → paddr % 4096 ≡ 0
    → flags < 4096
    → (vmm_get_paddr pml4 vaddr (vmm_map_page pml4 paddr vaddr page_size_4kb flags v) ≡ some paddr)
      × ((vmm_unmap_page pml4 vaddr (vmm_map_page pml4 paddr vaddr page_size_4kb flags v)).0
          ≡ paddr)
      × (vmm_get_paddr pml4 vaddr
            (vmm_unmap_page pml4 vaddr (vmm_map_page pml4 paddr vaddr page_size_4kb flags v)).1
          ≡ some 0)
vmm_get_paddr-vmm_map_page flags pml4 paddr vaddr v h al small =
    let x = bit_or paddr (bit_or 1 flags) in
    let page = entry_page paddr flags al small in
    rw (mapped flags pml4 vaddr v h paddr, unmapped flags pml4 vaddr v h x)
      (
        paddr_found flags pml4 vaddr v h x ∙ ap (λ (y : ℕ). some y) page,
        page,
        paddr_found flags pml4 vaddr v h 0,
      )

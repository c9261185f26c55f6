-- ===== src/Dfs/Load.antt =====
-- The pages that a read or write misses are in the cache when it tries again.
use destin_x.Prelude.{
  ℕ, zero, suc, ◌+◌, ◌*◌, ◌%◌, ◌^◌, ◌≤◌, ◌<◌, ◌≡◌, ◌≢◌, refl, sym, ap, ◌∙◌, inl, inr, Bool, true,
  false, List, ◌∷◌, arith, ◌==◌, if◌then◌else◌, Bool-cases, ==_iff, length, ◌∉◌,
}
use mathlib.Core.Bool.{true≢false}
use destin_x.Pmm.{alloc_page}
use destin_x.PageCache.{PageCache, get_page_cache, add_page_to_cache, set_flags}
use destin_x.PageCache.Search.{
  Linked, first_match, SameKeys, get_page_cache-first_match, first_match-add,
}
use destin_x.Dfs.{Inode}
use destin_x.Dfs.Lookup.{Dfs, Driver}
use destin_x.Dfs.Files.{Access, page_at, misses, mark_dirty, load, marked}

-- The page is on the list of the entries `xs`.
abbrev pub Cached : (id indx : ℕ) → PageCache → List ℕ → Type 0
Cached id indx c xs = (first_match id indx c xs == 0) ≡ false

pub Cached-get :
    (entries id indx : ℕ) (c : PageCache) (xs : List ℕ)
    → Linked c c.cache_list xs
    → length xs ≤ entries
    → (get_page_cache entries id indx c == 0) ≡ (first_match id indx c xs == 0)
Cached-get entries id indx c xs l small =
    ap (λ (p : ℕ). p == 0) (get_page_cache-first_match entries id indx c xs l small)

pub page_at-get :
    (entries : ℕ) (inode : Inode) (first i : ℕ) (c : PageCache)
    → (page_at entries inode first i c == 0) ≡ false
    → (get_page_cache entries inode.inode_num (first + i) c == 0) ≡ false
unfolding page_at
page_at-get entries inode first i c e = ground (arith, e)

-- No page is missed when all are cached.
pub misses-Cached :
    (entries rounds : ℕ) (inode : Inode) (first i : ℕ) (c : PageCache) (xs : List ℕ)
    → Linked c c.cache_list xs
    → length xs ≤ entries
    → ((j : ℕ) → i ≤ j → j < i + rounds → Cached inode.inode_num (first + j) c xs)
    → misses entries rounds inode first i c ≡ false
unfolding misses
misses-Cached entries zero inode first i c xs l small all = refl
misses-Cached entries (suc rounds) inode first i c xs l small all =
    let here =
      Cached-get entries inode.inode_num (first + i) c xs l small
      ∙ all i (omega arith) (omega arith) in
    rw here (
      misses-Cached entries rounds inode first (i + 1) c xs l small
        (λ j lo hi. all j (omega (arith, lo)) (omega (arith, hi))))

-- The marks of `dfs_write` are flags.
mark_dirty-SameKeys :
    (entries rounds : ℕ) (inode : Inode) (first i : ℕ) (c d : PageCache)
    → SameKeys c d
    → SameKeys c (mark_dirty entries rounds inode first i d)
unfolding mark_dirty
mark_dirty-SameKeys entries zero inode first i c d same = same
mark_dirty-SameKeys entries (suc rounds) inode first i c d (head, same) =
    let p = get_page_cache entries inode.inode_num (first + i) d in
    let e = if p == 0 then d else set_flags p true (d.entry p).writeback d in
    let step : SameKeys c e = (
      elim (Bool-cases (p == 0)) [ inl z ↦ rw z head | inr z ↦ rw z head ],
      λ a.
          let (x, y, n) = same a in
          elim (Bool-cases (p == 0)) [
            | inl z ↦ rw z (x, y, n)
            | inr z ↦ rw z (ground (arith, x), ground (arith, y), ground (arith, n))
          ],
    ) in
    mark_dirty-SameKeys entries rounds inode first (i + 1) c e step

pub marked-SameKeys :
    (k : Access) (entries count : ℕ) (inode : Inode) (first : ℕ) (c : PageCache)
    → SameKeys c (marked k entries count inode first c)
marked-SameKeys Access.reading entries count inode first c = (refl, λ a. (refl, refl, refl))
marked-SameKeys Access.writing entries count inode first c =
    mark_dirty-SameKeys entries count inode first 0 c c (refl, λ a. (refl, refl, refl))

-- `kmalloc` gives a new address for each page from the given one on, none of them in `xs`.
abbrev pub Fresh : (new_entry : ℕ → ℕ) → ℕ → List ℕ → Type 0
Fresh new_entry from xs =
    (j : ℕ)
    → from ≤ j
    → (new_entry j ≢ 0) × (new_entry j ∉ xs) × ((k : ℕ) → j < k → new_entry j ≢ new_entry k)

module _ {D : Type 0} (ahci_read : Driver D) (new_entry : ℕ → ℕ) (k : Access) (inode : Inode)
    (first : ℕ) (pages : ℕ → ℕ) where
  -- What `load` leaves: `ys` are the entries of the list.
  abbrev pub Loaded : (rounds i : ℕ) → (s t : Dfs D) → (xs ys : List ℕ) → Type 0
  Loaded rounds i s t xs ys =
      Linked t.cache t.cache.cache_list ys
      × (length ys ≤ length xs + rounds)
      × (t.inode_table ≡ s.inode_table)
      × ((id indx : ℕ) → Cached id indx s.cache xs → Cached id indx t.cache ys)
      × ((j : ℕ)
          → i ≤ j
          → j < i + rounds
          → (pages j == 0) ≡ true
          → Cached inode.inode_num (first + j) t.cache ys)

  abbrev dirty : Bool
  dirty = elim k [ Access.reading ↦ false | Access.writing ↦ true ]

  -- The state behind a page that was read.
  abbrev with_page : ℕ → Dfs D → Dfs D
  with_page i s =
      let (paddr, pmm) = alloc_page s.pmm in
      let (status, memory, device) =
        ahci_read ((((first + i) * 8) + inode.start_block * 8) % 2 ^ 64) paddr s.memory s.device in
      record s {
        memory = memory;
        pmm = pmm;
        device = device;
        cache =
            add_page_to_cache (new_entry (first + i)) inode.inode_num (first + i) paddr dirty
              s.cache;
      }

  load_none :
      (i : ℕ) (s : Dfs D) → load ahci_read new_entry k zero inode first i pages s ≡ (true, s)
  unfolding load
  load_none i s = refl

  load_skips :
      (rounds i : ℕ) (s : Dfs D)
      → (pages i == 0) ≡ false
      → load ahci_read new_entry k (suc rounds) inode first i pages s
        ≡ load ahci_read new_entry k rounds inode first (i + 1) pages s
  unfolding load
  load_skips rounds i s e = rw (load, e) refl

  load_reads :
      (rounds i : ℕ) (s : Dfs D)
      → (pages i == 0) ≡ true
      → (load ahci_read new_entry k (suc rounds) inode first i pages s).0 ≡ true
      → load ahci_read new_entry k (suc rounds) inode first i pages s
        ≡ load ahci_read new_entry k rounds inode first (i + 1) pages (with_page i s)
  unfolding load
  load_reads rounds i s e done =
      let (paddr, pmm) = alloc_page s.pmm in
      let (status, memory, device) =
        ahci_read ((((first + i) * 8) + inode.start_block * 8) % 2 ^ 64) paddr s.memory s.device in
      elim (Bool-cases (status == 0)) [
        | inl ok ↦ rw (load, e, ok) refl
        | inr bad ↦ absurd (true≢false (sym (rw (load, e, bad) at done)))
      ]

  with_page-Linked :
      (i : ℕ) (s : Dfs D) (xs : List ℕ)
      → Linked s.cache s.cache.cache_list xs
      → Fresh new_entry (first + i) xs
      → let t = with_page i s in
        let ys = new_entry (first + i) ∷ xs in
        Linked t.cache t.cache.cache_list ys
        × Fresh new_entry (first + (i + 1)) ys
        × ((id indx : ℕ) → Cached id indx s.cache xs → Cached id indx t.cache ys)
        × Cached inode.inode_num (first + i) t.cache ys
  with_page-Linked i s xs l fresh =
      let n = new_entry (first + i) in
      let (ne, out, apart) = fresh (first + i) (omega arith) in
      let paddr = (alloc_page s.pmm).0 in
      let (linked, at, found) =
        first_match-add n inode.inode_num (first + i) paddr dirty s.cache xs l ne out in
      (
        linked,
        λ j lo.
            let (ne2, out2, apart2) = fresh j (omega (arith, lo)) in
            let other : n ≢ new_entry j = apart j (omega (arith, lo)) in
            (ne2, ground (arith, out2, other), apart2),
        λ id indx c. ap (λ (p : ℕ). p == 0) (found id indx) ∙ ground (arith, ne, c),
        ap (λ (p : ℕ). p == 0) (found inode.inode_num (first + i)) ∙ ground (arith, ne),
      )

  pub load-Loaded :
      (rounds i : ℕ) (s : Dfs D) (xs : List ℕ)
      → Linked s.cache s.cache.cache_list xs
      → Fresh new_entry (first + i) xs
      → (load ahci_read new_entry k rounds inode first i pages s).0 ≡ true
      → (ys : List ℕ) × Loaded rounds i s
          (load ahci_read new_entry k rounds inode first i pages s).1
          xs
          ys
  load-Loaded zero i s xs l fresh done =
      rw (load_none i s)
        (xs, (l, omega arith, refl, λ id indx c. c, λ j lo hi e. absurd (omega (arith, lo, hi))))
  load-Loaded (suc rounds) i s xs l fresh done = elim (Bool-cases (pages i == 0)) [
    | inr e ↦
        let eq = load_skips rounds i s e in
        let (ys, (l2, small, table, kept, new)) =
          load-Loaded rounds (i + 1) s xs l (λ j lo. fresh j (omega (arith, lo))) (rw eq at done) in
        rw eq (
          ys,
          (
            l2,
            omega (arith, small),
            table,
            kept,
            λ j lo hi z. elim (Bool-cases (i == j)) [
              | inl same ↦
                  let bad : (pages i == 0) ≡ true =
                    ap (λ (x : ℕ). pages x == 0) ((==_iff i j).0 same) ∙ z in
                  absurd (true≢false (sym bad ∙ e))
              | inr other ↦ new j (ground (arith, lo, other)) (omega (arith, hi)) z
            ],
          ),
        )
    | inl e ↦
        let eq = load_reads rounds i s e done in
        let (l1, fresh1, kept1, new1) = with_page-Linked i s xs l fresh in
        let (ys, (l2, small, table, kept, new)) =
          load-Loaded rounds (i + 1) (with_page i s) (new_entry (first + i) ∷ xs) l1 fresh1
            (rw eq at done) in
        rw eq (
          ys,
          (
            l2,
            omega (arith, small),
            table,
            λ id indx c. kept id indx (kept1 id indx c),
            λ j lo hi z. elim (Bool-cases (i == j)) [
              | inl same ↦
                  let at = kept inode.inode_num (first + i) new1 in
                  ap
                    (λ (x : ℕ).
                      first_match inode.inode_num (first + x)
                        (load ahci_read new_entry k rounds inode first (i + 1) pages
                          (with_page i s)).1.cache
                        ys
                      == 0)
                    (sym ((==_iff i j).0 same))
                  ∙ at
              | inr other ↦ new j (ground (arith, lo, other)) (omega (arith, hi)) z
            ],
          ),
        )
  ]

-- ===== src/Dfs/Retry.antt =====
-- `dfs_read` and `dfs_write` return: the second try finds every page in the cache.
use destin_x.Prelude.{
  ℕ, suc, ◌+◌, ◌-◌, ◌*◌, ◌^◌, ◌≤◌, ◌<◌, ◌≡◌, ◌≢◌, ◌⊎◌, refl, sym, ap, ◌∙◌, inl, inr, Bool, true,
  false, ◌||◌, Option, some, List, arith, ltb, ◌==◌, if◌then◌else◌, add64, sub64, Bool-cases,
  length,
}
use destin_x.PageCache.Search.{Linked, first_match, first_match-SameKeys}
use destin_x.Vmm.{page_size_4kb}
use destin_x.Dfs.{Inode}
use destin_x.Dfs.Lookup.{Dfs, Driver, Found}
use destin_x.Dfs.Files.{
  Access, Lookup, page_number, page_count, page_at, misses, marked, load, copy_pages, has_room,
  copies_all, access_pages,
}
use destin_x.Dfs.Load.{
  Cached, Cached-get, page_at-get, Fresh, misses-Cached, marked-SameKeys, load-Loaded,
}

-- The lookup finds inode `n` each time, and leaves the inodes and the cache alone.
abbrev pub Finds : {D : Type 0} → Lookup D → ℕ → Type 0
Finds {D} look_up n =
    (s : Dfs D)
    → ((look_up s).0 ≡ Found.inode n)
      × ((look_up s).1.inode_table ≡ s.inode_table)
      × ((look_up s).1.cache ≡ s.cache)

-- One page is enough, or the offset is at most a page.
abbrev pub Copyable : (offset size : ℕ) → Type 0
Copyable offset size = (page_count offset size ≤ 1) ⊎ (offset ≤ page_size_4kb)

module _ {D : Type 0} (ahci_read : Driver D) (new_entry : ℕ → ℕ) (look_up : Lookup D) (k : Access)
    (entries n buffer offset : ℕ) (finds : Finds look_up n) where
  -- The state in which the pages are looked up.
  abbrev looked : (size : ℕ) → Dfs D → Dfs D
  looked size s =
      let s0 = (look_up s).1 in
      let inode = s0.inode_table n in
      record s0 {
        cache = marked k entries (page_count offset size) inode (page_number offset) s0.cache;
      }

  abbrev pages : (size : ℕ) → Dfs D → ℕ → ℕ
  pages size s i =
      page_at entries ((look_up s).1.inode_table n) (page_number offset) i (looked size s).cache

  abbrev loads : (size : ℕ) → Dfs D → Bool × Dfs D
  loads size s =
      load ahci_read new_entry k (page_count offset size) ((look_up s).1.inode_table n)
        (page_number offset) 0 (pages size s) (looked size s)

  abbrev misses_any : (size : ℕ) → Dfs D → Bool
  misses_any size s =
      misses entries (page_count offset size) ((look_up s).1.inode_table n) (page_number offset) 0
        (look_up s).1.cache

  abbrev run : (room fuel size : ℕ) → Dfs D → Option (ℕ × Dfs D)
  run room fuel size s =
      access_pages ahci_read new_entry look_up k entries room fuel buffer offset size s

  nothing_asked :
      (room fuel size : ℕ) (s : Dfs D)
      → ((buffer == 0) || (size == 0)) ≡ true
      → run room (suc fuel) size s ≡ some (0, s)
  unfolding access_pages
  nothing_asked room fuel size s e = rw (access_pages, e) refl

  behind_end :
      (room fuel size : ℕ) (s : Dfs D)
      → ((buffer == 0) || (size == 0)) ≡ false
      → ltb ((look_up s).1.inode_table n).size offset ≡ true
      → run room (suc fuel) size s ≡ some (0, (look_up s).1)
  unfolding access_pages
  behind_end room fuel size s e past = rw (access_pages, e, (finds s).0, past) refl

  all_cached :
      (room fuel size : ℕ) (s : Dfs D)
      → ((buffer == 0) || (size == 0)) ≡ false
      → ltb ((look_up s).1.inode_table n).size offset ≡ false
      → has_room room (page_count offset size) ≡ true
      → copies_all offset (page_count offset size) ≡ true
      → misses_any size s ≡ false
      → run room (suc fuel) size s
        ≡ some (
          size,
          record (looked size s) {
            memory =
                copy_pages k buffer offset size
                  (page_count offset size)
                  (pages size s)
                  (looked size s).memory;
          },
        )
  unfolding access_pages
  all_cached room fuel size s e inside fits copies hit =
      rw (access_pages, e, (finds s).0, inside, fits, hit, copies) refl

  load_fails :
      (room fuel size : ℕ) (s : Dfs D)
      → ((buffer == 0) || (size == 0)) ≡ false
      → ltb ((look_up s).1.inode_table n).size offset ≡ false
      → has_room room (page_count offset size) ≡ true
      → misses_any size s ≡ true
      → (loads size s).0 ≡ false
      → run room (suc fuel) size s ≡ some (0, (loads size s).1)
  unfolding access_pages
  load_fails room fuel size s e inside fits miss bad =
      rw (access_pages, e, (finds s).0, inside, fits, miss, bad) refl

  tries_again :
      (room fuel size : ℕ) (s : Dfs D)
      → ((buffer == 0) || (size == 0)) ≡ false
      → ltb ((look_up s).1.inode_table n).size offset ≡ false
      → has_room room (page_count offset size) ≡ true
      → misses_any size s ≡ true
      → (loads size s).0 ≡ true
      → run room (suc fuel) size s
        ≡ run
            (room - page_count offset size)
            fuel
            (if ltb ((look_up s).1.inode_table n).size (add64 offset size)
              then sub64 ((look_up s).1.inode_table n).size offset
              else size)
            (loads size s).1
  unfolding access_pages
  tries_again room fuel size s e inside fits miss ok =
      rw (access_pages, e, (finds s).0, inside, fits, miss, ok) refl

  -- A page that was missed is loaded, and one that was not stays.
  all_loaded :
      (size : ℕ) (s : Dfs D) (xs : List ℕ)
      → Linked s.cache s.cache.cache_list xs
      → length xs + page_count offset size ≤ entries
      → Fresh new_entry (page_number offset) xs
      → (loads size s).0 ≡ true
      → (ys : List ℕ) × Linked (loads size s).1.cache (loads size s).1.cache.cache_list ys
        × (length ys ≤ entries)
        × ((loads size s).1.inode_table ≡ s.inode_table)
        × ((j : ℕ)
            → j < page_count offset size
            → Cached
                ((s.inode_table n).inode_num)
                (page_number offset + j)
                (loads size s).1.cache
                ys)
  all_loaded size s xs l small fresh ok =
      let s0 = (look_up s).1 in
      let inode = s0.inode_table n in
      let count = page_count offset size in
      let first = page_number offset in
      let (found, table0, cache0) = finds s in
      let m = marked-SameKeys k entries count inode first s0.cache in
      let l0 : Linked s0.cache s0.cache.cache_list xs = rw cache0 l in
      let l1 : Linked (looked size s).cache (looked size s).cache.cache_list xs =
        rw (sym m.0)
          (first_match-SameKeys 0 0 s0.cache.cache_list s0.cache (looked size s).cache xs m l0).0 in
      let (ys, (l2, small2, table, kept, new)) =
        load-Loaded ahci_read new_entry k inode first (pages size s) count 0 (looked size s) xs l1
          (λ j lo. fresh j (omega (arith, lo))) ok in
      let same : s0.inode_table n ≡ s.inode_table n = ap (λ (t : ℕ → Inode). t n) table0 in
      (
        ys,
        l2,
        omega (arith, small, small2),
        table ∙ table0,
        λ j hi.
            let there : Cached inode.inode_num (first + j) (loads size s).1.cache ys =
              elim (Bool-cases (pages size s j == 0)) [
                | inl z ↦ new j (omega arith) (omega (arith, hi)) z
                | inr z ↦ kept inode.inode_num (first + j) (
                    sym (
                      Cached-get entries inode.inode_num (first + j) (looked size s).cache xs l1
                        (omega (arith, small)))
                    ∙ page_at-get entries inode first j (looked size s).cache z)
              ] in
            ap (λ (i : Inode). first_match i.inode_num (first + j) (loads size s).1.cache ys == 0)
              (sym same)
            ∙ there,
      )

  -- The second try misses no page.
  second_hits :
      (size size2 : ℕ) (s : Dfs D) (xs : List ℕ)
      → Linked s.cache s.cache.cache_list xs
      → length xs + page_count offset size ≤ entries
      → Fresh new_entry (page_number offset) xs
      → size2 ≤ size
      → offset + size + 4096 < 2 ^ 64
      → (loads size s).0 ≡ true
      → misses_any size2 (loads size s).1 ≡ false
  second_hits size size2 s xs l small fresh le bound ok =
      let (ys, l2, small2, table, cached) = all_loaded size s xs l small fresh ok in
      let s2 = (loads size s).1 in
      let (found, table2, cache2) = finds s2 in
      let same : s.inode_table n ≡ (look_up s2).1.inode_table n =
        ap (λ (t : ℕ → Inode). t n) (sym (table2 ∙ table)) in
      let fewer : page_count offset size2 ≤ page_count offset size = omega (arith, le, bound) in
      rw cache2 (
        misses-Cached entries (page_count offset size2) ((look_up s2).1.inode_table n)
          (page_number offset) 0 s2.cache ys l2 small2
          (λ j lo hi.
            ap (λ (i : Inode). first_match i.inode_num (page_number offset + j) s2.cache ys == 0)
              (sym same)
            ∙ cached j (omega (arith, hi, fewer))))

  -- The call returns at most `size`.
  abbrev pub Returns : (room fuel size : ℕ) → Dfs D → Type 0
  Returns room fuel size s =
      (m : ℕ) × (t : Dfs D) × (run room fuel size s ≡ some (m, t)) × (m ≤ size)

  Returns-early :
      (room fuel size : ℕ) (s : Dfs D)
      → (((buffer == 0) || (size == 0)) ≡ false
          → ltb ((look_up s).1.inode_table n).size offset ≡ false
          → Returns room (suc fuel) size s)
      → Returns room (suc fuel) size s
  Returns-early room fuel size s later = elim (Bool-cases ((buffer == 0) || (size == 0))) [
    | inl e ↦ (0, s, nothing_asked room fuel size s e, omega arith)
    | inr e ↦ elim (Bool-cases (ltb ((look_up s).1.inode_table n).size offset)) [
      | inl past ↦ (0, (look_up s).1, behind_end room fuel size s e past, omega arith)
      | inr inside ↦ later e inside
    ]
  ]

  Copyable-copies_all :
      (size : ℕ)
      → Copyable offset size
      → offset + size + 4096 < 2 ^ 64
      → ((buffer == 0) || (size == 0)) ≡ false
      → copies_all offset (page_count offset size) ≡ true
  Copyable-copies_all size c bound e =
      let some_size : size ≢ 0 = ground (arith, e) in
      let some_page : 1 ≤ page_count offset size = omega (arith, some_size, bound) in
      one_or_more (page_count offset size) c some_page
    where
      one_or_more :
          (count : ℕ)
          → (count ≤ 1) ⊎ (offset ≤ page_size_4kb)
          → 1 ≤ count
          → copies_all offset count ≡ true
      one_or_more count c pos = ground (arith, c, pos)

  Returns-hit :
      (room fuel size : ℕ) (s : Dfs D)
      → Copyable offset size
      → offset + size + 4096 < 2 ^ 64
      → has_room room (page_count offset size) ≡ true
      → misses_any size s ≡ false
      → Returns room (suc fuel) size s
  Returns-hit room fuel size s c bound fits hit = Returns-early room fuel size s (λ e inside.
      let copies = Copyable-copies_all size c bound e in
      (size, _, all_cached room fuel size s e inside fits copies hit, omega arith))

  fewer_pages :
      (size size2 : ℕ)
      → size2 ≤ size
      → offset + size + 4096 < 2 ^ 64
      → page_count offset size2 ≤ page_count offset size
  fewer_pages size size2 le bound = omega (arith, le, bound)

  has_room-rest :
      (room count count2 : ℕ)
      → count2 ≤ count
      → 2 * count ≤ room
      → count < 2 ^ 31
      → (has_room room count ≡ true) × (has_room (room - count) count2 ≡ true)
  has_room-rest room count count2 le twice small =
      (ground (arith, twice, small), ground (arith, le, twice, small))

  pub access_pages_lem :
      (room fuel size : ℕ) (s : Dfs D) (xs : List ℕ)
      → Linked s.cache s.cache.cache_list xs
      → length xs + page_count offset size ≤ entries
      → Fresh new_entry (page_number offset) xs
      → offset + size + 4096 < 2 ^ 64
      → (s.inode_table n).size < 2 ^ 64
      → Copyable offset size
      → 2 * page_count offset size ≤ room
      → page_count offset size < 2 ^ 31
      → Returns room (suc (suc fuel)) size s
  access_pages_lem room fuel size s xs l small fresh bound fits copyable twice few =
      let inode = (look_up s).1.inode_table n in
      let count = page_count offset size in
      let size2 = if ltb inode.size (add64 offset size) then sub64 inode.size offset else size in
      let same : inode ≡ s.inode_table n = ap (λ (t : ℕ → Inode). t n) (finds s).1 in
      let fits2 : inode.size < 2 ^ 64 = rw same fits in
      let room1 = (has_room-rest room count count (omega arith) twice few).0 in
      elim (Bool-cases (misses_any size s)) [
        | inr hit ↦ Returns-hit room (suc fuel) size s copyable bound room1 hit
        | inl miss ↦ Returns-early room (suc fuel) size s (λ e inside.
            elim (Bool-cases (loads size s).0) [
              | inr bad ↦ (
                0,
                (loads size s).1,
                load_fails room (suc fuel) size s e inside room1 miss bad,
                omega arith,
              )
              | inl ok ↦
                  let le : size2 ≤ size = ground (arith, fits2, inside, bound) in
                  let fewer = fewer_pages size size2 le bound in
                  let room2 =
                    (has_room-rest room count (page_count offset size2) fewer twice few).1 in
                  let copyable2 : Copyable offset size2 = elim copyable [
                    | inl one ↦ inl (trans_le _ _ _ fewer one)
                    | inr near ↦ inr near
                  ] in
                  let hits = second_hits size size2 s xs l small fresh le bound ok in
                  let (m, t, eq, less) =
                    Returns-hit (room - count) fuel size2 (loads size s).1 copyable2
                      (omega (arith, le, bound)) room2 hits in
                  (
                    m,
                    t,
                    tries_again room (suc fuel) size s e inside room1 miss ok ∙ eq,
                    omega (arith, less, le),
                  )
            ])
      ]
    where
      trans_le : (a b c : ℕ) → a ≤ b → b ≤ c → a ≤ c
      trans_le a b c x y = omega (arith, x, y)

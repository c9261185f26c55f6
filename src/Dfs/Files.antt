-- ===== src/Dfs/Files.antt =====
-- Reads and writes of a file through the page cache, `dfs_read`, `dfs_write`, `dfs_file_read` and
-- `dfs_file_write` in fs/dfs.c. The address that `kmalloc` gives for the entry of each page is a parameter.
use destin_x.Prelude.{
  ℕ, zero, suc, ◌+◌, ◌-◌, ◌*◌, ◌/◌, ◌%◌, ◌^◌, Bool, true, false, not, ◌&&◌, ◌||◌, Option, none,
  some, ltb, leb, ◌==◌, if◌then◌else◌, add64, sub64,
}
use destin_x.Pmm.{alloc_page, free_page}
use destin_x.Vmm.{direct_offset, page_size_4kb}
use destin_x.Str.{Memory, memcpy}
use destin_x.Vfs.{File}
use destin_x.PageCache.{PageCache, get_page_cache, add_page_to_cache, set_flags}
use destin_x.Dfs.{Inode}
use destin_x.Dfs.Lookup.{Dfs, Driver, Found}

-- `dfs_read` or `dfs_write`.
pub data Access : Type 0 where
  reading writing : Access

-- The inode of the path, and what the lookup leaves behind.
abbrev pub Lookup : Type 0 → Type 0
Lookup D = Dfs D → Found × Dfs D

abbrev pub page_number : ℕ → ℕ
page_number offset = offset / page_size_4kb

-- `((offset + size - (offset & PAGE_MASK_4KB)) + PAGE_SIZE_4KB - 1) / PAGE_SIZE_4KB`
abbrev pub page_count : (offset size : ℕ) → ℕ
page_count offset size =
    add64 (sub64 (add64 offset size) (offset - offset % page_size_4kb)) (page_size_4kb - 1)
    / page_size_4kb

-- `pages[i]`, which is 0 for a page that is not cached.
unfoldable pub page_at : (entries : ℕ) → Inode → (first i : ℕ) → PageCache → ℕ
page_at entries inode first i c =
    let p = get_page_cache entries inode.inode_num (first + i) c in
    if p == 0 then 0 else (c.entry p).addr

-- The loop over the pages sets `miss`.
unfoldable pub misses : (entries rounds : ℕ) → Inode → (first i : ℕ) → PageCache → Bool
misses entries zero inode first i c = false
misses entries (suc rounds) inode first i c =
    (get_page_cache entries inode.inode_num (first + i) c == 0)
    || misses entries rounds inode first (i + 1) c

-- `dfs_write` marks the pages it finds.
unfoldable pub mark_dirty : (entries rounds : ℕ) → Inode → (first i : ℕ) → PageCache → PageCache
mark_dirty entries zero inode first i c = c
mark_dirty entries (suc rounds) inode first i c =
    let p = get_page_cache entries inode.inode_num (first + i) c in
    mark_dirty entries rounds inode first (i + 1)
      (if p == 0 then c else set_flags p true (c.entry p).writeback c)

-- A copy between the buffer at `b` and a page at `p`.
abbrev pub copy : Access → (b p count : ℕ) → Memory → Memory
copy Access.reading b p count mem = (memcpy b p count mem).1
copy Access.writing b p count mem = (memcpy p b count mem).1

-- The place in the first page: only `dfs_write` adds the offset.
abbrev pub place_in_page : Access → (offset page : ℕ) → ℕ
place_in_page Access.reading offset page = add64 page direct_offset
place_in_page Access.writing offset page = add64 (add64 page direct_offset) offset

-- The loop over the pages between the first and the last; `b` is the place in the buffer of page 1.
unfoldable pub copy_middle : Access → (rounds i b : ℕ) → (pages : ℕ → ℕ) → Memory → Memory
copy_middle k zero i b pages mem = mem
copy_middle k (suc rounds) i b pages mem =
    copy_middle k rounds (i + 1) b pages
      (copy k (add64 b ((i - 1) * page_size_4kb)) (add64 (pages i) direct_offset) page_size_4kb mem)

unfoldable pub copy_pages :
    Access → (buffer offset size count : ℕ) → (pages : ℕ → ℕ) → Memory → Memory
copy_pages k buffer offset size count pages mem =
    let head = sub64 page_size_4kb offset in
    let tail = add64 size offset % page_size_4kb in
    let b = add64 buffer head in
    let mem1 = copy k buffer (place_in_page k offset (pages 0)) head mem in
    let mem2 = copy_middle k (sub64 count 1 - 1) 1 b pages mem1 in
    if count == 1
    then copy k buffer (place_in_page k offset (pages 0)) size mem
    else if count == 2
    then copy k b (add64 (pages 1) direct_offset) tail mem1
    else copy k (add64 (sub64 buffer offset) (sub64 count 1 * page_size_4kb))
        (add64 (pages (sub64 count 1)) direct_offset) tail mem2

-- The loop that reads the missing pages from page `i` on; false means that a read failed.
unfoldable pub load :
    {D : Type 0}
    → Driver D
    → (new_entry : ℕ → ℕ) → Access
    → (rounds : ℕ) → Inode
    → (first i : ℕ) → (pages : ℕ → ℕ) → Dfs D
    → Bool × Dfs D
load ahci_read new_entry k zero inode first i pages s = (true, s)
load ahci_read new_entry k (suc rounds) inode first i pages s =
    let (paddr, pmm) = alloc_page s.pmm in
    let (status, memory, device) =
      ahci_read ((((first + i) * 8) + inode.start_block * 8) % 2 ^ 64) paddr s.memory s.device in
    let failed = record s { memory = memory; pmm = free_page paddr pmm; device = device } in
    let loaded = record s {
      memory = memory;
      pmm = pmm;
      device = device;
      cache =
          add_page_to_cache (new_entry (first + i)) inode.inode_num (first + i) paddr
            (elim k [ Access.reading ↦ false | Access.writing ↦ true ]) s.cache;
    } in
    elim (pages i == 0) [
      | false ↦ load ahci_read new_entry k rounds inode first (i + 1) pages s
      | true ↦ elim (status == 0) [
        | false ↦ (false, failed)
        | true ↦ load ahci_read new_entry k rounds inode first (i + 1) pages loaded
      ]
    ]

abbrev pub marked : Access → (entries count : ℕ) → Inode → (first : ℕ) → PageCache → PageCache
marked Access.reading entries count inode first c = c
marked Access.writing entries count inode first c = mark_dirty entries count inode first 0 c

-- The array `pages` has place on the stack, and `int i` counts its entries.
abbrev pub has_room : (room count : ℕ) → Bool
has_room room count = leb count room && ltb count (2 ^ 31)

-- The lengths that are copied do not wrap: `PAGE_SIZE_4KB - offset` is used for more than one page, and the loop
-- runs to `page_count - 1`.
abbrev pub copies_all : (offset count : ℕ) → Bool
copies_all offset count = (count == 1) || (ltb 1 count && leb offset page_size_4kb)

-- `none` means that the lookup gave `NULL`, which the source reads through, that the stack overflows, that a copy
-- runs over the whole memory, or that the fuel ran out. `entries` bounds the list of the cache, and `room` is the
-- number of entries of `pages` for which the stack has place; the second try has an array of its own.
unfoldable pub access_pages :
    {D : Type 0}
    → Driver D
    → (new_entry : ℕ → ℕ) → Lookup D
    → Access
    → (entries room fuel buffer offset size : ℕ) → Dfs D
    → Option (ℕ × Dfs D)
access_pages ahci_read new_entry look_up k entries room zero buffer offset size s = none
access_pages ahci_read new_entry look_up k entries room (suc fuel) buffer offset size s =
    if (buffer == 0) || (size == 0) then some (0, s) else elim (look_up s).0 [
      | Found.unfinished ↦ none
      | Found.null ↦ none
      | Found.inode n ↦
          let s0 = (look_up s).1 in
          let inode = s0.inode_table n in
          let first = page_number offset in
          let count = page_count offset size in
          let missed = misses entries count inode first 0 s0.cache in
          let s1 = record s0 { cache = marked k entries count inode first s0.cache } in
          let pages : ℕ → ℕ = λ i. page_at entries inode first i s1.cache in
          let clipped =
            if ltb inode.size (add64 offset size) then sub64 inode.size offset else size in
          let copied = record s1 {
            memory = copy_pages k buffer offset size count pages s1.memory;
          } in
          if ltb inode.size offset
          then some (0, s0)
          else if not (has_room room count)
          then none
          else elim missed [
            | false ↦ if copies_all offset count then some (size, copied) else none
            | true ↦
                let (done, s2) = load ahci_read new_entry k count inode first 0 pages s1 in
                elim done [
                  | false ↦ some (0, s2)
                  | true ↦
                      access_pages ahci_read new_entry look_up k entries (room - count) fuel buffer
                        offset clipped s2
                ]
          ]
    ]

abbrev pub dfs_read :
    {D : Type 0}
    → Driver D
    → (new_entry : ℕ → ℕ) → Lookup D
    → (entries room fuel buffer offset size : ℕ) → Dfs D
    → Option (ℕ × Dfs D)
dfs_read ahci_read new_entry look_up = access_pages ahci_read new_entry look_up Access.reading

abbrev pub dfs_write :
    {D : Type 0}
    → Driver D
    → (new_entry : ℕ → ℕ) → Lookup D
    → (entries room fuel buffer offset size : ℕ) → Dfs D
    → Option (ℕ × Dfs D)
dfs_write ahci_read new_entry look_up = access_pages ahci_read new_entry look_up Access.writing

-- What `dfs_file_read` and `dfs_file_write` ask for: no byte behind the end of the file.
abbrev pub clip : (size position count : ℕ) → ℕ
clip size position count = if ltb size (add64 position count) then sub64 size position else count

-- `dfs_file_read` and `dfs_file_write`: the bytes, the file and the state behind them.
unfoldable pub file_access :
    {D : Type 0}
    → (dfs_access : (buffer offset size : ℕ) → Dfs D → Option (ℕ × Dfs D)) → File
    → (buffer count : ℕ) → Dfs D
    → Option (ℕ × File × Dfs D)
file_access dfs_access file buffer count s =
    let size = (s.inode_table file.private_data).size in
    if leb size file.position
    then some (0, file, s)
    else elim (dfs_access buffer file.position (clip size file.position count) s) [
      | none ↦ none
      | some (n, t) ↦
          if n == 2 ^ 64 - 1
          then some (0, file, t)
          else some (n % 2 ^ 32, record file { position = add64 file.position n }, t)
    ]

abbrev pub dfs_file_read :
    {D : Type 0}
    → Driver D
    → (new_entry : ℕ → ℕ) → Lookup D
    → (entries room fuel : ℕ) → File
    → (buffer count : ℕ) → Dfs D
    → Option (ℕ × File × Dfs D)
dfs_file_read ahci_read new_entry look_up entries room fuel =
    file_access (dfs_read ahci_read new_entry look_up entries room fuel)

abbrev pub dfs_file_write :
    {D : Type 0}
    → Driver D
    → (new_entry : ℕ → ℕ) → Lookup D
    → (entries room fuel : ℕ) → File
    → (buffer count : ℕ) → Dfs D
    → Option (ℕ × File × Dfs D)
dfs_file_write ahci_read new_entry look_up entries room fuel =
    file_access (dfs_write ahci_read new_entry look_up entries room fuel)

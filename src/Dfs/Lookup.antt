-- ===== src/Dfs/Lookup.antt =====
-- The lookup of a path, `dfs_get_inode` in fs/dfs.c.
use destin_x.Prelude.{
  ℕ, zero, suc, ◌+◌, ◌*◌, ◌/◌, ◌%◌, ◌^◌, Bool, true, false, not, ◌||◌, Option, none, some, ◌==◌,
  if◌then◌else◌, add64,
}
use destin_x.Pmm.{Pmm, alloc_page, free_page}
use destin_x.Vmm.{direct_offset, page_size_4kb}
use destin_x.Str.{Memory, Order, memset, memcmp}
use destin_x.PageCache.{PageCache}
use destin_x.Dfs.{Inode}

-- `inode_table` is that of `dfs_ctx`; `memory` holds the bytes by their virtual addresses.
pub record Dfs (D : Type 0) : Type 0 where
  pub inode_table : ℕ → Inode
  pub cache : PageCache
  pub memory : Memory
  pub pmm : Pmm
  pub device : D

-- `ahci_read` of eight sectors into one page: the status, the memory and the device behind it.
abbrev pub Driver : Type 0 → Type 0
Driver D = (lba page : ℕ) → Memory → D → ℕ × Memory × D

abbrev pub dfs_type_dir : ℕ
dfs_type_dir = 2

-- `sizeof(dir_entry_t)`, and the place of `name` in it.
abbrev pub entry_size : ℕ
entry_size = 64

abbrev pub name_offset : ℕ
name_offset = 8

-- The four bytes of `entry->inode_num`.
abbrev pub inode_num_at : ℕ → Memory → ℕ
inode_num_at a mem =
    mem a + 2 ^ 8 * mem (add64 a 1) + 2 ^ 16 * mem (add64 a 2) + 2 ^ 24 * mem (add64 a 3)

abbrev is_equal : Order → Bool
is_equal Order.minus_one = false
is_equal Order.equal = true
is_equal Order.one = false

abbrev pub matches : (entry path len : ℕ) → Memory → Bool
matches entry path len mem = is_equal (memcmp (add64 entry name_offset) path len mem)

-- The loop over the entries from `i` on: `found` is the inode of the last entry that matched.
unfoldable pub scan : (rounds i list path len : ℕ) → Memory → (found : Option ℕ) → Option ℕ
scan zero i list path len mem found = found
scan (suc rounds) i list path len mem found =
    let entry = add64 list (entry_size * i) in
    scan rounds (i + 1) list path len mem
      (if matches entry path len mem then some (inode_num_at entry mem) else found)

-- The loop that measures a component from the `len` that the last one left; `none` means that the fuel ran out.
unfoldable pub measure : (fuel path len : ℕ) → Memory → Option ℕ
measure zero path len mem = none
measure (suc fuel) path len mem =
    let rest = measure fuel path (len + 1) mem in
    let c = mem (add64 path len) in if c == 47 then some len else if c == 0 then some len else rest

-- `null` is `NULL`, and `unfinished` means that the fuel ran out.
pub data Found : Type 0 where
  unfinished null : Found
  inode : ℕ → Found

pub data Walk (D : Type 0) : Type 0 where
  ends : Found → Dfs D → Walk D
  goes : (path len cur : ℕ) → Dfs D → Walk D

-- The search of a directory for the component of `len` bytes at `path`.
unfoldable pub enter_dir : {D : Type 0} → Driver D → (phys_buf path len cur : ℕ) → Dfs D → Walk D
enter_dir ahci_read phys_buf path len cur s =
    let dir = s.inode_table cur in
    let (status, memory, device) =
      ahci_read (dir.start_block * 8 % 2 ^ 64) phys_buf s.memory s.device in
    let s1 = record s { memory = memory; device = device } in
    let found =
      scan (dir.size / entry_size % 2 ^ 32) 0 (add64 phys_buf direct_offset) path len memory none in
    if not (dir.type == dfs_type_dir) || (s.memory path == 0)
    then Walk.ends (Found.null) s
    else if not (status == 0)
    then Walk.ends (Found.null) s1
    else elim found [ none ↦ Walk.ends (Found.null) s1 | some i ↦ Walk.goes path len i s1 ]

-- One round of the outer loop.
unfoldable pub walk_step :
    {D : Type 0} → Driver D → (fuel phys_buf path len cur : ℕ) → Dfs D → Walk D
walk_step ahci_read fuel phys_buf path len cur s =
    if s.memory path == 0
    then Walk.ends (Found.inode cur) s
    else if not (s.memory path == 47)
    then Walk.goes (add64 path 1) len cur s
    else elim (measure fuel (add64 path 1) len s.memory) [
      | none ↦ Walk.ends Found.unfinished s
      | some l ↦ enter_dir ahci_read phys_buf (add64 path 1) l cur s
    ]

unfoldable pub walk :
    {D : Type 0} → Driver D → (fuel rounds phys_buf path len cur : ℕ) → Dfs D → Found × Dfs D
walk ahci_read fuel zero phys_buf path len cur s = (Found.unfinished, s)
walk ahci_read fuel (suc rounds) phys_buf path len cur s =
    elim (walk_step ahci_read fuel phys_buf path len cur s) [
      | Walk.ends r t ↦ (r, t)
      | Walk.goes p l i t ↦ walk ahci_read fuel rounds phys_buf p l i t
    ]

-- `path` is the address of the path. The page of the buffer is freed on every way out.
unfoldable pub dfs_get_inode : {D : Type 0} → Driver D → (fuel path : ℕ) → Dfs D → Found × Dfs D
dfs_get_inode ahci_read fuel path s =
    let (phys_buf, pmm) = alloc_page s.pmm in
    let s1 = record s {
      memory = (memset (add64 phys_buf direct_offset) 0 page_size_4kb s.memory).1;
      pmm = pmm;
    } in
    let (r, t) = walk ahci_read fuel fuel phys_buf path 0 1 s1 in
    (r, record t { pmm = free_page phys_buf t.pmm })

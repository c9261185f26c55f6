-- ===== src/Dfs.antt =====
-- Files on the disk, fs/dfs.c: the lookup of a path, reads and writes through the page cache, and the write of a
-- file's dirty pages. The driver with its device, and the addresses that the allocators return, are parameters.
pub mod Sync
pub mod Lookup
pub mod Files
pub mod Load
pub mod Retry
pub mod Position
mod Tests
use destin_x.Prelude.{
  ℕ, zero, suc, ◌+◌, ◌-◌, ◌*◌, ◌/◌, ◌%◌, ◌^◌, ◌≤◌, ◌<◌, ◌≡◌, ◌≢◌, ◌↔◌, ◌⊎◌, refl, sym, ap, ◌∙◌, inl,
  inr, Bool, true, false, not, ◌&&◌, ◌||◌, Option, none, some, List, [], ◌∷◌, ◌++◌, map, arith, ltb,
  leb, ◌==◌, if◌then◌else◌, update, add64, sub64, Bool-cases, Option-cases, ==_iff, ==_self, ltb→lt,
  lt→ltb, length, get_elem?, length-append, bit_and, bit_or, bit_xor, has, ◌∈◌, ◌∉◌, has-append,
}
use destin_x.Vmm.{page_size_4kb}
use destin_x.PageCache.{PageCache, Synced, get_page_cache, sync_page, sector_of}

-- `inode_t`, with the `start_block` of its extent.
pub record Inode : Type 0 where
  pub inode_num : ℕ
  pub size : ℕ
  pub type : ℕ
  pub start_block : ℕ

-- `(inode->size + PAGE_SIZE_4KB - 1) / PAGE_SIZE_4KB`
abbrev pub pages_of : Inode → ℕ
pages_of inode = add64 inode.size (page_size_4kb - 1) / page_size_4kb

-- The loop of `dfs_file_sync` from page `i` on; `entries` bounds the list of the cache.
unfoldable pub sync_loop :
    {D : Type 0}
    → (ahci_write : (lba page : ℕ) → D → ℕ × D) → (entries rounds i : ℕ) → Inode
    → Synced D
    → Synced D
sync_loop ahci_write entries zero i inode s = s
sync_loop ahci_write entries (suc rounds) i inode s =
    let p = get_page_cache entries inode.inode_num i s.cache in
    let s1 = if p == 0 then s else sync_page ahci_write (sector_of inode.start_block i) p s in
    sync_loop ahci_write entries rounds (i + 1) inode s1

-- The source returns the number of failed writes.
unfoldable pub dfs_file_sync :
    {D : Type 0}
    → (ahci_write : (lba page : ℕ) → D → ℕ × D) → (entries : ℕ) → Inode
    → PageCache
    → D
    → Synced D
dfs_file_sync ahci_write entries inode c device =
    sync_loop ahci_write entries (pages_of inode) 0 inode
      (record { failed = 0; cache = c; device = device })

-- ===== src/Dfs/Tests.antt =====
-- File 3 has 6000 bytes in the blocks 10 and 11; its two pages are cached, the second one dirty.
use destin_x.Prelude.{ℕ, ◌+◌, ◌≡◌, refl, Bool, true, false, ◌==◌, if◌then◌else◌}
use destin_x.Str.{memcmp_loop, memcmp}
use destin_x.Vmm.{direct_offset}
use destin_x.Vfs.{FileType, Ops, File}
use destin_x.PageCache.{CachedPage, PageCache, get_page_cache, search_from, sync_page}
use destin_x.Dfs.{Inode, sync_loop, dfs_file_sync}
use destin_x.Dfs.Lookup.{Dfs, Driver, Found, scan, measure, enter_dir, walk_step, walk}
use destin_x.Dfs.Files.{Lookup}

abbrev entry_at : (indx addr next : ℕ) → (dirty : Bool) → CachedPage
entry_at indx addr next dirty = record {
  id = 3;
  indx = indx;
  addr = addr;
  dirty = dirty;
  writeback = false;
  next = next;
}

abbrev cached : PageCache
cached = record {
  entry = λ a.
      if a == 16
      then entry_at 0 4096 32 false
      else if a == 32
      then entry_at 1 8192 0 true
      else record { id = 0; indx = 0; addr = 0; dirty = false; writeback = false; next = 0 };
  cache_list = 16;
}

abbrev file_inode : Inode
file_inode = record { inode_num = 3; size = 6000; type = 1; start_block = 10 }

-- A disk that counts the writes and fails at sector 80.
abbrev failing_write : (lba page : ℕ) → ℕ → ℕ × ℕ
failing_write lba page writes = (if lba == 80 then 1 else 0, writes + 1)

-- The dirty page lies in sector 88 and is written.
sync_writes : ((dfs_file_sync failing_write 2 file_inode cached 0).failed ≡ 0)
unfolding dfs_file_sync sync_loop get_page_cache search_from sync_page
sync_writes = refl

-- The list is empty, page 1 is free, and "/ab" is at 100.
abbrev disk : Dfs ℕ
disk = record {
  inode_table = λ i.
      if i == 1
      then record { inode_num = 1; size = 128; type = 2; start_block = 2 }
      else file_inode;
  cache = record { entry = cached.entry; cache_list = 0 };
  memory = λ a. if a == 100 then 47 else if a == 101 then 97 else if a == 102 then 98 else 0;
  pmm = record { bitmap = λ b. 1; total_pages = 8 };
  device = 0;
}

-- A disk whose pages hold zeros.
abbrev blank_read : Driver ℕ
blank_read lba page mem reads = (0, mem, reads + 1)

-- The root directory: one entry "ab" for inode 3.
abbrev root_read : Driver ℕ
root_read lba page mem reads = (
  0,
  λ a.
      if a == page + direct_offset
      then 3
      else if a == page + direct_offset + 8
      then 97
      else if a == page + direct_offset + 9
      then 98
      else mem a,
  reads + 1,
)

finds_ab : (walk root_read 9 9 4096 100 0 1 disk).0 ≡ Found.inode 3
unfolding walk walk_step measure enter_dir scan memcmp memcmp_loop
finds_ab = refl

abbrev finds_file : Lookup ℕ
finds_file s = (Found.inode 3, s)

abbrev open_file_at : ℕ → File
open_file_at position = record {
  fp = λ i. 0;
  type = FileType.regular;
  flags = 0;
  position = position;
  ops = Ops.dfs_ops;
  private_data = 3;
}

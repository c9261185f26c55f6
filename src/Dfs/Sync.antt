-- ===== src/Dfs/Sync.antt =====
-- `dfs_file_sync` counts the pages of the file that it leaves unwritten.
use destin_x.Prelude.{ℕ, zero, suc, ◌+◌, ◌∙◌, Bool, not, ◌&&◌, ◌==◌, if◌then◌else◌}
use destin_x.PageCache.{PageCache, Synced, get_page_cache, needs_sync, sync_page, sector_of}
use destin_x.PageCache.Search.{SameKeys}
use destin_x.Dfs.{Inode}

-- The cached page `i` of the file is dirty, and nothing writes it back.
abbrev pub is_unsynced : (entries i : ℕ) → Inode → PageCache → Bool
is_unsynced entries i inode c =
    let p = get_page_cache entries inode.inode_num i c in not (p == 0) && needs_sync (c.entry p)

-- How many of the pages from `i` on are.
abbrev pub unsynced : (entries rounds i : ℕ) → Inode → PageCache → ℕ
unsynced entries zero i inode c = 0
unsynced entries (suc rounds) i inode c =
    (if is_unsynced entries i inode c then 1 else 0) + unsynced entries rounds (i + 1) inode c

abbrev both : (c d e : PageCache) → SameKeys c d → SameKeys d e → SameKeys c e
both c d e (s, f) (t, g) =
    (s ∙ t, λ a. let (i1, x1, n1) = f a in let (i2, x2, n2) = g a in (i1 ∙ i2, x1 ∙ x2, n1 ∙ n2))

module _ {D : Type 0} (ahci_write : (lba page : ℕ) → D → ℕ × D) (entries : ℕ) (inode : Inode) where
  abbrev round : ℕ → Synced D → Synced D
  round i s =
      let p = get_page_cache entries inode.inode_num i s.cache in
      if p == 0 then s else sync_page ahci_write (sector_of inode.start_block i) p s

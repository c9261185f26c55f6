-- ===== src/PageCache/Sync.antt =====
-- What the write of one cached page back to the disk does to the cache.
use destin_x.Prelude.{ℕ, ◌+◌, ◌≡◌, ◌≢◌, arith, if◌then◌else◌}
use destin_x.PageCache.{Synced, needs_sync, sync_page}
use destin_x.PageCache.Search.{SameKeys}

module _ {D : Type 0} (ahci_write : (lba page : ℕ) → D → ℕ × D) (lba p : ℕ) (s : Synced D) where
  -- The list and the pages of its entries stay.
  pub sync_page-SameKeys : SameKeys s.cache (sync_page ahci_write lba p s).cache
  unfolding sync_page
  sync_page-SameKeys = (ground arith, λ a. ground arith)

  -- No other entry changes.
  pub sync_page-other :
      (a : ℕ) → p ≢ a → (sync_page ahci_write lba p s).cache.entry a ≡ s.cache.entry a
  unfolding sync_page
  sync_page-other a far = ground (arith, far)

  -- A failure is counted exactly when the page still has to be written.
  pub sync_page-failed :
      (sync_page ahci_write lba p s).failed
      ≡ s.failed + (if needs_sync ((sync_page ahci_write lba p s).cache.entry p) then 1 else 0)
  unfolding sync_page
  sync_page-failed = ground arith

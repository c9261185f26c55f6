-- ===== src/PageCache.antt =====
-- The cache of file pages, mm/page_cache.c, and the write of one cached page back to the disk, which
-- `dfs_file_sync` in fs/dfs.c and the sync call in arch/x86_64/syscalls/syscalls.c share. `kmalloc`'s address
-- and the driver `ahci_write` with its device are parameters.
pub mod Search
pub mod Sync
mod Tests
use destin_x.Prelude.{
  ℕ, zero, suc, ◌+◌, ◌-◌, ◌*◌, ◌/◌, ◌%◌, ◌^◌, ◌≤◌, ◌<◌, ◌≡◌, ◌≢◌, ◌↔◌, ◌⊎◌, refl, sym, ap, ◌∙◌, inl,
  inr, Bool, true, false, not, ◌&&◌, ◌||◌, Option, none, some, List, [], ◌∷◌, ◌++◌, map, arith, ltb,
  leb, ◌==◌, if◌then◌else◌, update, add64, sub64, Bool-cases, Option-cases, ==_iff, ==_self, ltb→lt,
  lt→ltb, length, get_elem?, length-append, bit_and, bit_or, bit_xor, has, ◌∈◌, ◌∉◌, has-append,
}

-- `page_cache_t`: `dirty` and `writeback` are `DIRTY_FLAG` and `WRITEBACK_FLAG` in `flags`.
pub record CachedPage : Type 0 where
  pub id : ℕ
  pub indx : ℕ
  pub addr : ℕ
  pub dirty : Bool
  pub writeback : Bool
  pub next : ℕ

-- The entries by their addresses, with 0 for `NULL`.
pub record PageCache : Type 0 where
  pub entry : ℕ → CachedPage
  pub cache_list : ℕ

-- `new_entry` is what `kmalloc` returns.
unfoldable pub add_page_to_cache :
    (new_entry id indx addr : ℕ) → (dirty : Bool) → PageCache → PageCache
add_page_to_cache new_entry id indx addr dirty c = record {
  entry = update c.entry new_entry (record {
    id = id;
    indx = indx;
    addr = addr;
    dirty = dirty;
    writeback = false;
    next = c.cache_list;
  });
  cache_list = new_entry;
}

abbrev pub is_page : (id indx : ℕ) → CachedPage → Bool
is_page id indx e = (e.id == id) && (e.indx == indx)

-- The loop of `get_page_cache` from `cur` on; the list has at most `rounds` entries.
unfoldable pub search_from : (rounds cur id indx : ℕ) → PageCache → ℕ
search_from zero cur id indx c = 0
search_from (suc rounds) cur id indx c =
    let rest = search_from rounds (c.entry cur).next id indx c in
    if cur == 0 then 0 else if is_page id indx (c.entry cur) then cur else rest

unfoldable pub get_page_cache : (rounds id indx : ℕ) → PageCache → ℕ
get_page_cache rounds id indx c = search_from rounds c.cache_list id indx c

-- `cur` leaves the list behind `prev`: the source writes `cur` itself to `prev->next`.
abbrev pub unlink : (prev cur : ℕ) → PageCache → PageCache
unlink prev cur c =
    let c1 =
      if prev == 0
      then c
      else record c { entry = update c.entry prev (record (c.entry prev) { next = cur }) } in
    if cur == c1.cache_list then record c1 { cache_list = (c1.entry cur).next } else c1

-- The loop of `remove_page_from_cache`: the cache, and the entry that it frees, whose page goes back to the
-- physical memory manager.
unfoldable pub remove_from : (rounds prev cur id indx : ℕ) → PageCache → Option ℕ × PageCache
remove_from zero prev cur id indx c = (none, c)
remove_from (suc rounds) prev cur id indx c =
    let rest = remove_from rounds cur (c.entry cur).next id indx c in
    if cur == 0
    then (none, c)
    else if is_page id indx (c.entry cur)
    then (some cur, unlink prev cur c)
    else rest

unfoldable pub remove_page_from_cache : (rounds id indx : ℕ) → PageCache → Option ℕ × PageCache
remove_page_from_cache rounds id indx c = remove_from rounds 0 c.cache_list id indx c

abbrev pub set_flags : (p : ℕ) → (dirty writeback : Bool) → PageCache → PageCache
set_flags p dirty writeback c = record c {
  entry = update c.entry p (record (c.entry p) { dirty = dirty; writeback = writeback });
}

-- The number of failed writes, the cache and the device.
pub record Synced (D : Type 0) : Type 0 where
  pub failed : ℕ
  pub cache : PageCache
  pub device : D

-- `(start_block + indx) * 8`
abbrev pub sector_of : (start_block indx : ℕ) → ℕ
sector_of start_block indx = add64 start_block indx * 8 % 2 ^ 64

abbrev pub needs_sync : CachedPage → Bool
needs_sync e = e.dirty && not e.writeback

-- The body of both loops: `p` is the page and `lba` its place on the disk.
unfoldable pub sync_page :
    {D : Type 0} → (ahci_write : (lba page : ℕ) → D → ℕ × D) → (lba p : ℕ) → Synced D → Synced D
sync_page ahci_write lba p s =
    let c1 = set_flags p (s.cache.entry p).dirty true s.cache in
    let (status, device) = ahci_write lba (c1.entry p).addr s.device in
    let c2 = set_flags p (c1.entry p).dirty false c1 in
    if not (needs_sync (s.cache.entry p))
    then s
    else if not (status == 0)
    then record { failed = s.failed + 1; cache = c2; device = device }
    else record { failed = s.failed; cache = set_flags p false false c2; device = device }

-- ===== src/PageCache/Tests.antt =====
-- A list of two cached pages of file 3: page 0 at 16, and page 1, which is dirty, at 32.
use destin_x.Prelude.{
  ℕ, ◌≡◌, refl, inl, true, false, some, List, [], ◌∷◌, arith, ◌==◌, if◌then◌else◌,
}
use destin_x.PageCache.{
  PageCache, add_page_to_cache, get_page_cache, remove_page_from_cache, remove_from, search_from,
}
use destin_x.PageCache.Search.{Linked, add_page_to_cache-get_page_cache}

abbrev pub two_pages : PageCache
two_pages = record {
  entry = λ a.
      if a == 16
      then record { id = 3; indx = 0; addr = 4096; dirty = false; writeback = false; next = 32 }
      else if a == 32
      then record { id = 3; indx = 1; addr = 8192; dirty = true; writeback = false; next = 0 }
      else record { id = 0; indx = 0; addr = 0; dirty = false; writeback = false; next = 0 };
  cache_list = 16;
}

abbrev pub two_entries : List ℕ
two_entries = 16 ∷ 32 ∷ []

pub Linked-two_pages : Linked two_pages 16 two_entries
Linked-two_pages = (refl, ground arith, (refl, ground arith, refl))

-- The entry that is freed stays on the list when it is not the first.
removed_stays :
    let (freed, c) = remove_page_from_cache 2 3 1 two_pages in
    (freed ≡ some 32) × ((c.entry 16).next ≡ 32) × (get_page_cache 2 3 1 c ≡ 32)
unfolding remove_page_from_cache get_page_cache remove_from search_from
removed_stays = (refl, refl, refl)

add_page_to_cache-get_page_cache_example :
    let d = add_page_to_cache 48 5 0 12288 false two_pages in
    Linked d d.cache_list (48 ∷ two_entries)
    × (get_page_cache 3 5 0 d ≡ 48)
    × ((d.entry 48).addr ≡ 12288)
    × ((d.entry 48).dirty ≡ false)
    × (get_page_cache 3 3 1 d ≡ get_page_cache 2 3 1 two_pages)
add_page_to_cache-get_page_cache_example =
    add_page_to_cache-get_page_cache 2 48 5 0 12288 false two_pages two_entries 3 1 Linked-two_pages
      (ground arith) (ground arith) (ground arith) (inl (ground arith))

-- ===== src/Pmm/Tests.antt =====
-- Runs of the page allocator, and the theorems at concrete bitmaps.
use destin_x.Prelude.{ℕ, ◌≡◌, ◌⊎◌, refl, some, arith, ◌==◌, if◌then◌else◌}
use destin_x.Prelude.Bits
use destin_x.Pmm.{Pmm, bitmap_test, alloc_page, alloc_pages, free_page}
use destin_x.Pmm.Bitmap.{IsBytes}
use destin_x.Pmm.Page.{AllTaken, TakenPage, alloc_page_lem, free_page-alloc_page}
use destin_x.Pmm.Run.{Searched, alloc_pages_lem}

-- Sixteen pages, of which 0, 1, 2 and 4 are taken.
abbrev sixteen : Pmm
sixteen = record { bitmap = λ b. if b == 0 then 0x17 else 0; total_pages = 16 }

sixteen-IsBytes : IsBytes sixteen
sixteen-IsBytes = record { byte = λ b. ground arith }

first_free : (alloc_page sixteen).0 ≡ 0x3000
unfolding alloc_page bitmap_test Bits.test_bit
first_free = refl

alloc_page_lem_example :
    ((alloc_page sixteen ≡ (0, sixteen)) × AllTaken sixteen 0 16)
    ⊎ ((p : ℕ) × TakenPage sixteen 0 16 (alloc_page sixteen) p)
alloc_page_lem_example = alloc_page_lem sixteen (omega arith)

free_page-alloc_page_example :
    bitmap_test (free_page (alloc_page sixteen).0 (alloc_page sixteen).1) 3 ≡ bitmap_test sixteen 3
free_page-alloc_page_example =
    free_page-alloc_page 3 sixteen-IsBytes (omega arith) (rw first_free (omega arith))

alloc_pages_lem_example :
    (out : ℕ × Pmm) × (alloc_pages 3 sixteen ≡ some out) × Searched sixteen 3 0 out
alloc_pages_lem_example =
    alloc_pages_lem 3 sixteen-IsBytes (omega arith) (omega arith) (omega arith)

-- ===== src/Pmm/Bitmap.antt =====
-- The bitmap macros of include/mm/pmm.h act on one page each.
use destin_x.Prelude.{ℕ, ◌/◌, ◌%◌, ◌<◌, ◌≡◌, not, ◌&&◌, ◌||◌, arith, ◌==◌}
use destin_x.Prelude.Bits.{set_bit-lt, clr_bit-lt, test_bit-set_bit, test_bit-clr_bit}
use destin_x.Pmm.{Pmm, bitmap_set, bitmap_clr, bitmap_test}

-- Every entry of the bitmap is a byte.
pub record IsBytes (s : Pmm) : Type 0 where
  pub byte : (b : ℕ) → s.bitmap b < 256

module _ {s : Pmm} (v : IsBytes s) (i : ℕ) where
  pub bitmap_set-IsBytes : IsBytes (bitmap_set s i)
  unfolding bitmap_set
  bitmap_set-IsBytes = record {
    byte = λ b. ground (arith, v.byte b, set_bit-lt (s.bitmap (i / 8)) (i % 8) (v.byte (i / 8)));
  }

  pub bitmap_clr-IsBytes : IsBytes (bitmap_clr s i)
  unfolding bitmap_clr
  bitmap_clr-IsBytes = record {
    byte = λ b. ground (arith, v.byte b, clr_bit-lt (s.bitmap (i / 8)) (i % 8) (v.byte (i / 8)));
  }

  pub bitmap_test-set : (j : ℕ) → bitmap_test (bitmap_set s i) j ≡ ((i == j) || bitmap_test s j)
  unfolding bitmap_set bitmap_test
  bitmap_test-set j =
      ground
        (arith, test_bit-set_bit (s.bitmap (i / 8)) (i % 8) (v.byte (i / 8)) (omega arith) (j % 8))

  pub bitmap_test-clr : (j : ℕ) → bitmap_test (bitmap_clr s i) j ≡ (not (i == j) && bitmap_test s j)
  unfolding bitmap_clr bitmap_test
  bitmap_test-clr j =
      ground
        (arith, test_bit-clr_bit (s.bitmap (i / 8)) (i % 8) (v.byte (i / 8)) (omega arith) (j % 8))

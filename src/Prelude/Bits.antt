-- ===== src/Prelude/Bits.antt =====
-- The tests and the changes of one bit of a byte, checked on every byte by evaluation.
use Prim.Native.Nat.{ℕ, zero, suc, ◌-◌, ◌^◌, ◌<◌, bit_and, bit_or}
use mathlib.Core.Path.{◌≡◌, refl}
use mathlib.Core.Bool.{Bool, true, false, not, ◌&&◌, ◌||◌}
use native.Mathlib.Omega.{arith}
use destin_x.Prelude.Tests.{ltb, ◌==◌, ltb→lt}

-- The test `p` succeeds at every number below the second argument.
unfoldable pub holds_upto : (ℕ → Bool) → ℕ → Bool
holds_upto p zero = true
holds_upto p (suc m) = p m && holds_upto p m

pub holds_upto-below : (p : ℕ → Bool) (m : ℕ) → holds_upto p m ≡ true → (v : ℕ) → v < m → p v ≡ true
unfolding holds_upto
holds_upto-below p zero all v small = absurd (omega arith)
holds_upto-below p (suc m) all v small =
    ground (arith, λ (below : holds_upto p m ≡ true). holds_upto-below p m below v)

-- `byte |= 1 << k`, `byte &= ~(1 << k)` and `byte & (1 << k)`
unfoldable pub set_bit : ℕ → ℕ → ℕ
set_bit b k = bit_or b (2 ^ k)

unfoldable pub clr_bit : ℕ → ℕ → ℕ
clr_bit b k = bit_and b (255 - 2 ^ k)

unfoldable pub test_bit : ℕ → ℕ → Bool
test_bit b k = not (bit_and b (2 ^ k) == 0)

beq : Bool → Bool → Bool
beq true b = b
beq false b = not b

beq-eq : (a b : Bool) → beq a b ≡ true → a ≡ b
unfolding beq
beq-eq a b h = ground arith

set_row : ℕ → ℕ → ℕ → Bool
set_row b k j = ltb (set_bit b k) 256 && beq (test_bit (set_bit b k) j) ((k == j) || test_bit b j)

clr_row : ℕ → ℕ → ℕ → Bool
clr_row b k j =
    ltb (clr_bit b k) 256 && beq (test_bit (clr_bit b k) j) (not (k == j) && test_bit b j)

set_table : holds_upto (λ b. holds_upto (λ k. holds_upto (set_row b k) 8) 8) 256 ≡ true
unfolding holds_upto set_row beq set_bit test_bit
set_table = refl

clr_table : holds_upto (λ b. holds_upto (λ k. holds_upto (clr_row b k) 8) 8) 256 ≡ true
unfolding holds_upto clr_row beq clr_bit test_bit
clr_table = refl

and_left : (a b : Bool) → (a && b) ≡ true → a ≡ true
and_left a b h = ground arith

and_right : (a b : Bool) → (a && b) ≡ true → b ≡ true
and_right a b h = ground arith

set_row-true : (b k j : ℕ) → b < 256 → k < 8 → j < 8 → set_row b k j ≡ true
set_row-true b k j hb hk hj =
    holds_upto-below _ 8 (holds_upto-below _ 8 (holds_upto-below _ 256 set_table b hb) k hk) j hj

clr_row-true : (b k j : ℕ) → b < 256 → k < 8 → j < 8 → clr_row b k j ≡ true
clr_row-true b k j hb hk hj =
    holds_upto-below _ 8 (holds_upto-below _ 8 (holds_upto-below _ 256 clr_table b hb) k hk) j hj

module _ (b k : ℕ) (hb : b < 256) (hk : k < 8) where
  pub set_bit-lt : set_bit b k < 256
  unfolding set_row
  set_bit-lt = ltb→lt _ _ (and_left _ _ (set_row-true b k 0 hb hk (omega arith)))

  pub clr_bit-lt : clr_bit b k < 256
  unfolding clr_row
  clr_bit-lt = ltb→lt _ _ (and_left _ _ (clr_row-true b k 0 hb hk (omega arith)))

  pub test_bit-set_bit : (j : ℕ) → j < 8 → test_bit (set_bit b k) j ≡ ((k == j) || test_bit b j)
  unfolding set_row
  test_bit-set_bit j hj = beq-eq _ _ (and_right _ _ (set_row-true b k j hb hk hj))

  pub test_bit-clr_bit : (j : ℕ) → j < 8 → test_bit (clr_bit b k) j ≡ (not (k == j) && test_bit b j)
  unfolding clr_row
  test_bit-clr_bit j hj = beq-eq _ _ (and_right _ _ (clr_row-true b k j hb hk hj))

-- ===== src/Buddy/Address.antt =====
-- Addresses of blocks: the buddy of an aligned block is its other half.
use destin_x.Prelude.{
  ℕ, zero, suc, ◌+◌, ◌*◌, ◌/◌, ◌%◌, ◌^◌, ◌≤◌, ◌<◌, ◌≡◌, refl, ap, ◌∙◌, arith, bit_xor,
}
use Prim.Native.Nat.{digits, differ, bit_xor-bitwise}
use native.Mathlib.Nat.{pow-suc, one-le-pow, mul_assoc}
use destin_x.Pmm.{page_size}
use destin_x.Buddy.{block_size, buddy_of}

-- Two amounts of fuel that both cover the first operand of `^` give the same digits.
module _ (tail : ℕ → ℕ) (digit : ℕ → ℕ → ℕ) where
  same_digits :
      (a b fuel spare : ℕ)
      → a ≤ fuel
      → a ≤ spare
      → digits tail digit fuel a b ≡ digits tail digit spare a b
  same_digits zero b zero zero le le' = refl
  same_digits zero b zero (suc spare) le le' = refl
  same_digits zero b (suc fuel) zero le le' = refl
  same_digits zero b (suc fuel) (suc spare) le le' = refl
  same_digits (suc a) b zero spare le le' = elim le [ ]
  same_digits (suc a) b (suc fuel) zero le le' = elim le' [ ]
  same_digits (suc a) b (suc fuel) (suc spare) le le' =
      ap (λ (q : ℕ). q * 2 + digit (suc a % 2) (b % 2))
        (same_digits (suc a / 2) (b / 2) fuel spare (omega arith) (omega arith))

bit_xor-zero_left : (b : ℕ) → bit_xor 0 b ≡ b
bit_xor-zero_left b = bit_xor-bitwise 0 b

differ-zero : (x : ℕ) → differ x 0 ≡ x
differ-zero zero = refl
differ-zero (suc x) = refl

-- The lowest digit of `a ^ b`.
bit_xor_step : (a b : ℕ) → bit_xor a b ≡ bit_xor (a / 2) (b / 2) * 2 + differ (a % 2) (b % 2)
bit_xor_step zero b = rw (bit_xor-zero_left b, bit_xor-zero_left (b / 2)) (omega arith)
bit_xor_step (suc a) b = omega (
  arith,
  bit_xor-bitwise (suc a) b,
  bit_xor-bitwise (suc a / 2) (b / 2),
  same_digits (λ y. y) differ (suc a / 2) (b / 2) a (suc a / 2) (omega arith) (omega arith),
)

bit_xor-zero_upto : (bound a : ℕ) → a ≤ bound → bit_xor a 0 ≡ a
bit_xor-zero_upto zero a le = let e : a ≡ 0 = omega arith in rw e refl
bit_xor-zero_upto (suc bound) zero le = refl
bit_xor-zero_upto (suc bound) (suc a) le = omega (
  arith,
  bit_xor_step (suc a) 0,
  bit_xor-zero_upto bound (suc a / 2) (omega arith),
  differ-zero (suc a % 2),
)

bit_xor-zero : (a : ℕ) → bit_xor a 0 ≡ a
bit_xor-zero a = bit_xor-zero_upto a a (omega arith)

times_suc : (q k : ℕ) → q * (2 * 2 ^ suc k) ≡ 2 * (q * (2 * 2 ^ k))
times_suc q k = omega (arith, ap (λ (t : ℕ). q * t) (pow-suc 2 k))

bit_xor_fields :
    (k q r : ℕ) → r < 2 ^ k → bit_xor (q * (2 * 2 ^ k) + r) (2 ^ k) ≡ q * (2 * 2 ^ k) + r + 2 ^ k
bit_xor_fields zero q r h =
    let e : r ≡ 0 = omega arith in
    rw e (omega (arith, bit_xor_step (q * 2 + 0) 1, bit_xor-zero ((q * 2 + 0) / 2), odd))
  where
    odd : differ ((q * 2 + 0) % 2) 1 ≡ 1
    odd = let z : (q * 2 + 0) % 2 ≡ 0 = omega arith in rw z
bit_xor_fields (suc k) q r h =
    bit_xor_step x (2 ^ suc k)
    ∙ rw
        (
          half_x,
          half_p,
          odd_p,
          differ-zero (x % 2),
          bit_xor_fields k q (r / 2) (omega (arith, pow-suc 2 k)),
        )
        (omega (arith, times_suc q k, pow-suc 2 k))
  where
    x : ℕ
    x = q * (2 * 2 ^ suc k) + r

    half_x : x / 2 ≡ q * (2 * 2 ^ k) + r / 2
    half_x = omega (arith, times_suc q k)

    half_p : 2 ^ suc k / 2 ≡ 2 ^ k
    half_p = omega (arith, pow-suc 2 k)

    odd_p : 2 ^ suc k % 2 ≡ 0
    odd_p = omega (arith, pow-suc 2 k)

block_size-pow : (i : ℕ) → block_size i ≡ 2 ^ (i + 12)
block_size-pow zero = refl
block_size-pow (suc i) =
    let e : suc i + 12 ≡ suc (i + 12) = omega arith in
    rw e (omega (arith, pow-suc 2 i, pow-suc 2 (i + 12), block_size-pow i))

pub block_size-suc : (i : ℕ) → block_size (suc i) ≡ 2 * block_size i
block_size-suc i = omega (arith, pow-suc 2 i)

pub block_size_pos : (i : ℕ) → 0 < block_size i
block_size_pos i = omega (arith, one-le-pow i 2 (omega arith))

-- A block of order `i` starts at a multiple of its size.
pub record Aligned (addr i : ℕ) : Type 0 where
  pub quotient : ℕ
  pub multiple : addr ≡ quotient * block_size i

-- The buddy of order `i` of a block that is aligned for order `i + 1` is its upper half.
pub buddy_of-lower : (addr i : ℕ) → Aligned addr (suc i) → buddy_of addr i ≡ addr + block_size i
buddy_of-lower addr i al =
    rw (at, block_size-pow i) (bit_xor_fields (i + 12) al.quotient 0 pos ∙ omega arith)
  where
    at : addr ≡ al.quotient * (2 * 2 ^ (i + 12)) + 0
    at = omega (
      arith,
      al.multiple,
      ap (λ (t : ℕ). al.quotient * t) (block_size-suc i ∙ ap (λ (t : ℕ). 2 * t) (block_size-pow i)),
    )

    pos : 0 < 2 ^ (i + 12)
    pos = one-le-pow (i + 12) 2 (omega arith)

pub Aligned-lower : (addr i : ℕ) → Aligned addr (suc i) → Aligned addr i
Aligned-lower addr i al = record {
  quotient = 2 * al.quotient;
  multiple =
      omega
        (arith, al.multiple, block_size-suc i, ap (λ (t : ℕ). al.quotient * t) (block_size-suc i));
}

pub Aligned-upper : (addr i : ℕ) → Aligned addr (suc i) → Aligned (addr + block_size i) i
Aligned-upper addr i al = record {
  quotient = 2 * al.quotient + 1;
  multiple =
      omega
        (arith, al.multiple, block_size-suc i, ap (λ (t : ℕ). al.quotient * t) (block_size-suc i));
}

-- Aligned blocks start at a page.
pub Aligned-page : (addr i : ℕ) → Aligned addr i → addr % page_size ≡ 0
Aligned-page addr i al = omega (arith, al.multiple, mul_assoc al.quotient (2 ^ i) 4096)

-- ===== src/Vmm/Entry.antt =====
-- `|` on the 64-bit entries of the page tables, mm/vmm.c.
use Prim.Native.Nat.{max, digits, bit_or-bitwise}
use destin_x.Prelude.{
  ℕ, zero, suc, ◌+◌, ◌*◌, ◌/◌, ◌%◌, ◌≤◌, ◌<◌, ◌≡◌, ◌⊎◌, refl, ap, ◌∙◌, inl, inr, arith, bit_or,
}

-- `q` moved up by `k` binary digits.
abbrev pub shift : ℕ → ℕ → ℕ
shift zero q = q
shift (suc k) q = shift k q * 2

abbrev or_digits : ℕ → ℕ → ℕ → ℕ
or_digits n a b = digits (λ y. y) max n a b

or_digits-zero : (n a : ℕ) → a ≤ n → or_digits n a 0 ≡ a
or_digits-zero zero a le = omega (arith, le)
or_digits-zero (suc n) zero le = refl
or_digits-zero (suc n) (suc a) le = omega (arith, or_digits-zero n (suc a / 2) (omega (arith, le)))

or_digits-shift : (k n a q f : ℕ) → a ≡ shift k q → a ≤ n → f < shift k 1 → or_digits n a f ≡ a + f
or_digits-shift zero n a q zero e le small = or_digits-zero n a le ∙ omega arith
or_digits-shift zero n a q (suc f) e le small = absurd (omega (arith, small))
or_digits-shift (suc k) zero zero q f e le small = omega arith
or_digits-shift (suc k) zero (suc a) q f e le small = absurd (omega (arith, le))
or_digits-shift (suc k) (suc n) zero q f e le small = omega arith
or_digits-shift (suc k) (suc n) (suc a) q f e le small =
    let ih =
      or_digits-shift k n (suc a / 2) q (f / 2) (omega (arith, e)) (omega (arith, le))
        (omega (arith, small)) in
    let even : suc a % 2 ≡ 0 = omega (arith, e) in rw even (omega (arith, ih, even))

-- A page address and flags below bit 12.
pub bit_or-page : (page f : ℕ) → page % 4096 ≡ 0 → f < 4096 → bit_or page f ≡ page + f
bit_or-page page f al small =
    simp bit_or-bitwise
      (or_digits-shift 12 page page (page / 4096) f (omega (arith, al)) (omega arith) small)

lt_two : (x : ℕ) → x < 2 → (x ≡ 0) ⊎ (x ≡ 1)
lt_two zero small = inl refl
lt_two (suc zero) small = inr refl
lt_two (suc (suc x)) small = absurd (omega (arith, small))

or_flags : (f : ℕ) → (f % 2 ≡ 0) ⊎ (f % 2 ≡ 1) → or_digits 1 1 f ≡ f / 2 * 2 + 1
or_flags f (inl e) = ap (λ (d : ℕ). f / 2 * 2 + max 1 d) e
or_flags f (inr e) = ap (λ (d : ℕ). f / 2 * 2 + max 1 d) e

pub bit_or-flags : (f : ℕ) → bit_or 1 f ≡ f / 2 * 2 + 1
bit_or-flags f = simp bit_or-bitwise (or_flags f (lt_two (f % 2) (omega arith)))

max_one : (x : ℕ) → x < 2 → max x 1 ≡ 1
max_one zero small = refl
max_one (suc zero) small = refl
max_one (suc (suc x)) small = absurd (omega (arith, small))

or_digits-one : (n a : ℕ) → a ≤ n → or_digits n a 1 ≡ a / 2 * 2 + 1
or_digits-one zero zero le = refl
or_digits-one (suc n) zero le = refl
or_digits-one zero (suc a) le = absurd (omega (arith, le))
or_digits-one (suc n) (suc a) le =
    let rest = or_digits-zero n (suc a / 2) (omega (arith, le)) in
    rw rest (ap (λ (d : ℕ). suc a / 2 * 2 + d) (max_one (suc a % 2) (omega arith)))

or_digits-two : (n a : ℕ) → a ≤ n → or_digits n a 2 ≡ a / 4 * 4 + 2 + a % 2
or_digits-two zero zero le = refl
or_digits-two (suc n) zero le = refl
or_digits-two zero (suc a) le = absurd (omega (arith, le))
or_digits-two (suc n) (suc a) le = omega (arith, or_digits-one n (suc a / 2) (omega (arith, le)))

or_digits-four : (n a : ℕ) → a ≤ n → or_digits n a 4 ≡ a / 8 * 8 + 4 + a % 4
or_digits-four zero zero le = refl
or_digits-four (suc n) zero le = refl
or_digits-four zero (suc a) le = absurd (omega (arith, le))
or_digits-four (suc n) (suc a) le = omega (arith, or_digits-two n (suc a / 2) (omega (arith, le)))

pub bit_or-user : (e : ℕ) → bit_or e 4 ≡ e / 8 * 8 + 4 + e % 4
bit_or-user e = simp bit_or-bitwise (or_digits-four e e (omega arith))

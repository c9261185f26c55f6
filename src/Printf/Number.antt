-- ===== src/Printf/Number.antt =====
-- The printed digits denote the number.
use destin_x.Prelude.{
  ℕ, zero, suc, ◌+◌, ◌-◌, ◌*◌, ◌/◌, ◌%◌, ◌^◌, ◌≤◌, ◌<◌, ◌≡◌, ◌≢◌, refl, ap, ◌∙◌, inl, inr, Bool,
  true, false, not, List, [], ◌∷◌, arith, ltb, ◌==◌, if◌then◌else◌, Bool-cases, ==_iff, lt→ltb,
  length,
}
use native.Mathlib.Nat.{
  div-add-mod', mod-lt, div-lt_iff_lt-mul, mul-le-mul_left, pow-suc, pow-zero, le_trans,
}
use destin_x.Printf.{digit, put_digits, take, local_putnum}

-- A character `0` to `9` or `a` to `f` as a digit.
abbrev pub digit_value : ℕ → ℕ
digit_value c = if ltb c 58 then c - 48 else c - 87

-- The number that digits denote, read from the left after `n`.
abbrev pub value_from : (base n : ℕ) → List ℕ → ℕ
value_from base n [] = n
value_from base n (c ∷ cs) = value_from base (n * base + digit_value c) cs

digit_value-digit : (d : ℕ) → d < 16 → digit_value (digit d) ≡ d
digit_value-digit d small = ground arith

smaller : (num base r : ℕ) → 2 ≤ base → num < 2 ^ suc r → num / base < 2 ^ r
smaller num base r two lt =
    (div-lt_iff_lt-mul {y = 2 ^ r} (omega arith)).1
      (omega (arith, mul-le-mul_left (2 ^ r) two, pow-suc 2 r))

put_digits_lem :
    (rounds num base : ℕ) (out : List ℕ)
    → 2 ≤ base
    → base ≤ 16
    → num < 2 ^ rounds
    → ((put_digits rounds num base out).0 ≡ 0)
      × (value_from base 0 (put_digits rounds num base out).1 ≡ value_from base num out)
unfolding put_digits
put_digits_lem zero num base out two le lt = let z : num ≡ 0 = omega arith in rw z (refl, refl)
put_digits_lem (suc rounds) num base out two le lt = elim (Bool-cases (num == 0)) [
  | inl z ↦ let e : num ≡ 0 = (==_iff num 0).0 z in rw (z, e) (refl, refl)
  | inr nz ↦
      let r = mod-lt num {m = base} (omega arith) in
      let d = digit_value-digit (num % base) (omega (arith, r)) in
      let (left, val) =
        put_digits_lem rounds (num / base) base (digit (num % base) ∷ out) two le
          (smaller num base rounds two lt) in
      rw nz (left, val ∙ rw d (ap (λ (t : ℕ). value_from base t out) (div-add-mod' num base)))
]

-- A number below `base ^ k` has at most `k` digits.
pub length-put_digits :
    (rounds num base k : ℕ) (out : List ℕ)
    → 2 ≤ base
    → num < base ^ k
    → length (put_digits rounds num base out).1 ≤ k + length out
unfolding put_digits
length-put_digits zero num base k out two lt = omega arith
length-put_digits (suc rounds) num base zero out two lt =
    let z : num ≡ 0 = omega (arith, pow-zero base) in rw z (omega arith)
length-put_digits (suc rounds) num base (suc k) out two lt = elim (Bool-cases (num == 0)) [
  | inl z ↦ rw z (omega arith)
  | inr nz ↦
      let less : num / base < base ^ k =
        (div-lt_iff_lt-mul {y = base ^ k} (omega arith)).1 (omega (arith, pow-suc base k)) in
      rw nz (
        le_trans (length-put_digits rounds (num / base) base k (digit (num % base) ∷ out) two less)
          (omega arith))
]

-- No zero leads.
abbrev pub no_zero_first : List ℕ → Bool
no_zero_first [] = false
no_zero_first (c ∷ cs) = not (c == b'0')

leads_put_digits :
    (rounds num base : ℕ) (out : List ℕ)
    → 2 ≤ base
    → base ≤ 16
    → num < 2 ^ rounds
    → num ≢ 0
    → no_zero_first (put_digits rounds num base out).1 ≡ true
unfolding put_digits
leads_put_digits zero num base out two le lt nz = absurd (nz (omega arith))
leads_put_digits (suc rounds) num base out two le lt nz =
    let nz' : (num == 0) ≡ false = ground (arith, nz) in
    elim (Bool-cases (num / base == 0)) [
      | inl z ↦
          let q : num / base ≡ 0 = (==_iff _ 0).0 z in
          let whole : num % base ≡ num =
            omega (arith, div-add-mod' num base, ap (λ (t : ℕ). t * base) q) in
          let lone : put_digits rounds 0 base (digit num ∷ out) ≡ (0, digit num ∷ out) =
            put_digits_zero rounds base (digit num ∷ out) in
          rw (nz', q, whole, lone) (ground (arith, nz))
      | inr more ↦ rw nz' (
          leads_put_digits rounds (num / base) base (digit (num % base) ∷ out) two le
            (smaller num base rounds two lt) (ground (arith, more)))
    ]
  where
    put_digits_zero : (rounds base : ℕ) (out : List ℕ) → put_digits rounds 0 base out ≡ (0, out)
    put_digits_zero zero base out = refl
    put_digits_zero (suc rounds) base out = refl

pub take_all : (n : ℕ) (xs : List ℕ) → length xs ≤ n → take n xs ≡ xs
take_all zero [] le = refl
take_all zero (x ∷ xs) le = absurd (omega arith)
take_all (suc n) [] le = refl
take_all (suc n) (x ∷ xs) le = ap (λ (t : List ℕ). x ∷ t) (take_all n xs (omega arith))

-- `local_putnum` stores the digits of a 64-bit number in base 2 to 16: read in that base they
-- give the number again, there are at most `k` of them when the number is below `base ^ k`, and a
-- number other than zero has no leading zero.
pub local_putnum_lem :
    (max_len num base k : ℕ)
    → 2 ≤ base
    → base ≤ 16
    → num < 2 ^ 64
    → 1 ≤ k
    → num < base ^ k
    → k ≤ max_len
    → (value_from base 0 (local_putnum max_len num base) ≡ num)
      × (length (local_putnum max_len num base) ≤ k)
      × (num ≢ 0 → no_zero_first (local_putnum max_len num base) ≡ true)
unfolding local_putnum
local_putnum_lem max_len num base k two le lt pos small room = elim (Bool-cases (num == 0)) [
  | inl z ↦
      let e : num ≡ 0 = (==_iff num 0).0 z in
      let m : ltb 0 max_len ≡ true = lt→ltb 0 max_len (omega arith) in
      rw (z, m) (omega (arith, e), pos, λ nz. absurd (nz e))
  | inr nz ↦
      let len : length (put_digits 64 num base []).1 ≤ k =
        omega (arith, length-put_digits 64 num base k [] two small) in
      let all : take max_len (put_digits 64 num base []).1 ≡ (put_digits 64 num base []).1 =
        take_all max_len _ (le_trans len room) in
      rw (nz, all)
        (
          (put_digits_lem 64 num base [] two le lt).1,
          len,
          λ ne. leads_put_digits 64 num base [] two le lt ne,
        )
]

-- Rounds that are not needed change nothing.
pub put_digits_rounds :
    (r r' num base : ℕ) (out : List ℕ)
    → 2 ≤ base
    → num < base ^ r
    → num < base ^ r'
    → put_digits r num base out ≡ put_digits r' num base out
unfolding put_digits
put_digits_rounds zero zero num base out two lt lt' = refl
put_digits_rounds zero (suc r') num base out two lt lt' =
    let z : num ≡ 0 = omega (arith, pow-zero base) in rw z refl
put_digits_rounds (suc r) zero num base out two lt lt' =
    let z : num ≡ 0 = omega (arith, pow-zero base) in rw z refl
put_digits_rounds (suc r) (suc r') num base out two lt lt' = elim (Bool-cases (num == 0)) [
  | inl z ↦ rw z refl
  | inr nz ↦ rw nz (
      put_digits_rounds r r' (num / base) base _ two (fewer r num base two lt)
        (fewer r' num base two lt'))
]
  where
    fewer : (r num base : ℕ) → 2 ≤ base → num < base ^ suc r → num / base < base ^ r
    fewer r num base two lt =
        (div-lt_iff_lt-mul {y = base ^ r} (omega arith)).1 (omega (arith, pow-suc base r))

-- ===== src/Str/Compare.antt =====
-- `memcmp` and `strlen` look for the first byte that decides.
use destin_x.Prelude.{
  ℕ, zero, suc, ◌+◌, ◌%◌, ◌^◌, ◌≤◌, ◌<◌, ◌≡◌, ◌≢◌, ◌⊎◌, refl, ap, ◌∙◌, inl, inr, true, false, some,
  arith, ltb, ◌==◌, if◌then◌else◌, add64, Bool-cases, ==_iff,
}
use destin_x.Links.{if_ne}
use destin_x.Str.{Memory, Order, memcmp_loop, memcmp, strlen_loop, strlen}

-- Byte `j` is the first from `i` on at which the `n` bytes at `p` and at `q` differ.
pub record FirstDifference (mem : Memory) (p q i n j : ℕ) : Type 0 where
  pub in_range : (i ≤ j) × (j < n)
  pub differ : mem (p + j) ≢ mem (q + j)
  pub before : (l : ℕ) → i ≤ l → l < j → mem (p + l) ≡ mem (q + l)

-- What each result of `memcmp` says of the bytes from `i` to `n`.
abbrev pub Compared : Memory → (p q i n : ℕ) → Order → Type 0
Compared mem p q i n Order.equal = (l : ℕ) → i ≤ l → l < n → mem (p + l) ≡ mem (q + l)
Compared mem p q i n Order.minus_one =
    (j : ℕ) × FirstDifference mem p q i n j × (mem (p + j) < mem (q + j))
Compared mem p q i n Order.one =
    (j : ℕ) × FirstDifference mem p q i n j × (mem (q + j) < mem (p + j))

same_from :
    (mem : Memory) (p q i n : ℕ)
    → mem (p + i) ≡ mem (q + i)
    → ((l : ℕ) → i + 1 ≤ l → l < n → mem (p + l) ≡ mem (q + l))
    → (l : ℕ) → i ≤ l
    → l < n
    → mem (p + l) ≡ mem (q + l)
same_from mem p q i n e rest l lo hi = elim (Bool-cases (i == l)) [
  | inl at ↦ let il : i ≡ l = (==_iff i l).0 at in rw il at e
  | inr later ↦ rest l (ground (arith, later, lo)) hi
]

earlier :
    (mem : Memory) (p q i n j : ℕ)
    → mem (p + i) ≡ mem (q + i)
    → FirstDifference mem p q (i + 1) n j
    → FirstDifference mem p q i n j
earlier mem p q i n j e d = record {
  in_range = (omega (arith, d.in_range), d.in_range.1);
  differ = d.differ;
  before = λ l lo hi. same_from mem p q i j e d.before l lo hi;
}

Compared-next :
    (mem : Memory) (p q i n : ℕ) (o : Order)
    → mem (p + i) ≡ mem (q + i)
    → Compared mem p q (i + 1) n o
    → Compared mem p q i n o
Compared-next mem p q i n Order.equal e c = same_from mem p q i n e c
Compared-next mem p q i n Order.minus_one e (j, d, lt) = (j, earlier mem p q i n j e d, lt)
Compared-next mem p q i n Order.one e (j, d, lt) = (j, earlier mem p q i n j e d, lt)

first_decides :
    (rounds i p q : ℕ) (mem : Memory)
    → mem (p + i) ≢ mem (q + i)
    → (ltb (mem (p + i)) (mem (q + i)) ≡ true) ⊎ (ltb (mem (p + i)) (mem (q + i)) ≡ false)
    → Compared mem p q i
        (i + suc rounds)
        (if ltb (mem (p + i)) (mem (q + i)) then Order.minus_one else Order.one)
first_decides rounds i p q mem ne c =
    let here : FirstDifference mem p q i (i + suc rounds) i = record {
      in_range = (omega arith, omega arith);
      differ = ne;
      before = λ l lo hi. absurd (omega arith);
    } in
    elim c [
      | inl e ↦ rw e (i, here, ground (arith, e))
      | inr e ↦ rw e (i, here, ground (arith, e, ne))
    ]

memcmp_loop_lem :
    (rounds i p q : ℕ) (mem : Memory)
    → p + (i + rounds) < 2 ^ 64
    → q + (i + rounds) < 2 ^ 64
    → Compared mem p q i (i + rounds) (memcmp_loop rounds i p q mem)
unfolding memcmp_loop
memcmp_loop_lem zero i p q mem small small' = λ l lo hi. absurd (omega arith)
memcmp_loop_lem (suc rounds) i p q mem small small' =
    let at : add64 p i ≡ p + i = omega arith in
    let at' : add64 q i ≡ q + i = omega arith in
    let bound : i + 1 + rounds ≡ i + suc rounds = omega arith in
    let ih = memcmp_loop_lem rounds (i + 1) p q mem (omega arith) (omega arith) in
    elim (Bool-cases (mem (p + i) == mem (q + i))) [
      | inl e ↦
          rw (at, at', e)
            (Compared-next mem p q i (i + suc rounds) _ ((==_iff _ _).0 e) (rw bound at ih))
      | inr ne ↦
          rw (at, at', ne)
            (first_decides rounds i p q mem (ground (arith, ne))
              (Bool-cases (ltb (mem (p + i)) (mem (q + i)))))
    ]

-- `memcmp` returns 0 when the `size` bytes at `s1` and at `s2` are the same. Otherwise it
-- returns -1 or 1, as the byte at `s1` is the smaller or the larger one at the first place where they differ. Both
-- blocks end below 2^64.
pub memcmp_lem :
    (s1 s2 size : ℕ) (mem : Memory)
    → s1 + size < 2 ^ 64
    → s2 + size < 2 ^ 64
    → Compared mem s1 s2 0 size (memcmp s1 s2 size mem)
unfolding memcmp
memcmp_lem s1 s2 size mem small small' =
    let none_before : 0 + size ≡ size = omega arith in
    rw none_before at (memcmp_loop_lem size 0 s1 s2 mem (omega arith) (omega arith))

strlen_loop_lem :
    (fuel s len n : ℕ) (mem : Memory)
    → s + n < 2 ^ 64
    → len ≤ n
    → n < len + fuel
    → mem (s + n) ≡ 0
    → ((l : ℕ) → len ≤ l → l < n → mem (s + l) ≢ 0)
    → strlen_loop fuel s len mem ≡ some (n % 2 ^ 32)
unfolding strlen_loop
strlen_loop_lem zero s len n mem small le enough null text = absurd (omega arith)
strlen_loop_lem (suc fuel) s len n mem small le enough null text =
    let at : add64 s len ≡ s + len = omega arith in
    elim (Bool-cases (len == n)) [
      | inl e ↦
          let here : len ≡ n = (==_iff len n).0 e in
          let z : mem (s + len) ≡ 0 = ap (λ (x : ℕ). mem (s + x)) here ∙ null in
          rw (at, z, here) refl
      | inr ne ↦
          let lt : len < n = ground (arith, ne, le) in
          let nz : mem (s + len) ≢ 0 = text len (omega arith) lt in
          rw at (
            if_ne (mem (s + len)) 0 _ _ nz
            ∙ strlen_loop_lem fuel s (len + 1) n mem small (omega arith) (omega arith) null
                (λ l lo hi. text l (omega arith) hi))
    ]

-- `strlen` of a string of `n` bytes, ended by a zero byte below 2^64, returns, with `n` modulo 2^32.
strlen_lem :
    (fuel s n : ℕ) (mem : Memory)
    → s + n < 2 ^ 64
    → n < fuel
    → mem (s + n) ≡ 0
    → ((l : ℕ) → l < n → mem (s + l) ≢ 0)
    → strlen fuel s mem ≡ some (n % 2 ^ 32)
unfolding strlen
strlen_lem fuel s n mem small enough null text =
    strlen_loop_lem fuel s 0 n mem small (omega arith) (omega arith) null (λ l lo hi. text l hi)

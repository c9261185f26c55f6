-- ===== src/Str/Copy.antt =====
-- `memset` and `memcpy` change exactly their destination.
use destin_x.Prelude.{
  ℕ, zero, suc, ◌+◌, ◌-◌, ◌%◌, ◌^◌, ◌≤◌, ◌<◌, ◌≡◌, ◌≢◌, ◌⊎◌, refl, ap, ◌∙◌, inl, inr, Bool, true,
  false, ◌&&◌, arith, ltb, leb, ◌==◌, if◌then◌else◌, update, add64, Bool-cases, ==_iff,
}
use destin_x.Links.{if_ne}
use destin_x.Str.{Memory, memset_loop, memset, memcpy_loop, memcpy}

-- The address `a` is one of the `count` bytes from `p` on.
abbrev pub within : (p count a : ℕ) → Bool
within p count a = leb p a && ltb a (p + count)

memset_loop_lem :
    (count ptr byte : ℕ) (mem : Memory) (a : ℕ)
    → ptr + count < 2 ^ 64
    → memset_loop count ptr byte mem a ≡ (if within ptr count a then byte else mem a)
unfolding memset_loop
memset_loop_lem zero ptr byte mem a small = ground (arith, small)
memset_loop_lem (suc count) ptr byte mem a small =
    let step : add64 ptr 1 ≡ ptr + 1 = omega arith in
    let ih = memset_loop_lem count (ptr + 1) byte (update mem ptr byte) a (omega arith) in
    rw step (ih ∙ ground arith)

-- `memset` returns `dest`, stores the low byte of `char_val` in the `count` bytes at `dest`, and
-- changes no other byte, when the bytes end below 2^64.
pub memset_lem :
    (dest char_val count : ℕ) (mem : Memory)
    → dest + count < 2 ^ 64
    → ((memset dest char_val count mem).0 ≡ dest)
      × ((a : ℕ)
          → (memset dest char_val count mem).1 a
            ≡ (if within dest count a then char_val % 2 ^ 8 else mem a))
unfolding memset
memset_lem dest char_val count mem small =
    (refl, λ a. memset_loop_lem count dest (char_val % 2 ^ 8) mem a small)

-- Storing the first byte does not disturb the later ones of the source.
memcpy_step :
    (count d s : ℕ) (mem : Memory) (a : ℕ)
    → (d ≤ s) ⊎ (s + suc count ≤ d)
    → (within (d + 1) count a ≡ true) ⊎ (within (d + 1) count a ≡ false)
    → (if within (d + 1) count a
        then update mem d (mem s) (s + 1 + (a - (d + 1)))
        else update mem d (mem s) a)
      ≡ (if within d (suc count) a then mem (s + (a - d)) else mem a)
memcpy_step count d s mem a apart (inl inside) =
    let lo : d + 1 ≤ a = ground (arith, inside) in
    let hi : a < d + 1 + count = ground (arith, inside) in
    let same : s + 1 + (a - (d + 1)) ≡ s + (a - d) = omega arith in
    let far : d ≢ s + (a - d) = elim apart [
      | inl l ↦ λ e. omega arith
      | inr r ↦ λ e. omega arith
    ] in
    let also : within d (suc count) a ≡ true = ground (arith, lo, hi) in
    rw (inside, also, same) (if_ne d (s + (a - d)) _ _ far)
memcpy_step count d s mem a apart (inr outside) = elim (Bool-cases (d == a)) [
  | inl e ↦
      let at : d ≡ a = (==_iff d a).0 e in
      let here : within d (suc count) a ≡ true = ground (arith, at) in
      let same : s ≡ s + (a - d) = omega (arith, at) in rw (outside, e, here) (ap mem same)
  | inr ne ↦
      let there : within d (suc count) a ≡ false = ground (arith, outside, ne) in
      rw (outside, ne, there) refl
]

memcpy_loop_lem :
    (count d s : ℕ) (mem : Memory) (a : ℕ)
    → d + count < 2 ^ 64
    → s + count < 2 ^ 64
    → (d ≤ s) ⊎ (s + count ≤ d)
    → memcpy_loop count d s mem a ≡ (if within d count a then mem (s + (a - d)) else mem a)
unfolding memcpy_loop
memcpy_loop_lem zero d s mem a small small' apart = ground (arith, small)
memcpy_loop_lem (suc count) d s mem a small small' apart =
    let step : add64 d 1 ≡ d + 1 = omega arith in
    let step' : add64 s 1 ≡ s + 1 = omega arith in
    let ih =
      memcpy_loop_lem count (d + 1) (s + 1) (update mem d (mem s)) a (omega arith) (omega arith)
        (elim apart [ inl l ↦ inl (omega arith) | inr r ↦ inr (omega arith) ]) in
    rw (step, step') (ih ∙ memcpy_step count d s mem a apart (Bool-cases (within (d + 1) count a)))

-- `memcpy` returns `dest` and changes no byte but the `count` bytes at `dest`, which become those
-- that were at `src`, when `dest` does not lie inside the source behind its first byte and both end below 2^64.
pub memcpy_lem :
    (dest src count : ℕ) (mem : Memory)
    → dest + count < 2 ^ 64
    → src + count < 2 ^ 64
    → (dest ≤ src) ⊎ (src + count ≤ dest)
    → ((memcpy dest src count mem).0 ≡ dest)
      × ((a : ℕ)
          → (memcpy dest src count mem).1 a
            ≡ (if within dest count a then mem (src + (a - dest)) else mem a))
unfolding memcpy
memcpy_lem dest src count mem small small' apart =
    (refl, λ a. memcpy_loop_lem count dest src mem a small small' apart)
